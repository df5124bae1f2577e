-- ===== src/Tokenizer/Table.antt =====
-- The two hash tables of src/text_tokenizer/bpe.c: open addressing over indices of entries.
use vibevoice_c.Common.{
  equal_bytes, ℕ, zero, suc, ◌+◌, ◌-◌, ◌*◌, ◌%◌, ◌^◌, Bool, true, false, ◌&&◌, Option, none, some,
  List, [], ◌∷◌, ltb, if◌then◌else◌, get_or, get_elem?, set, replicate, length, double_to, map,
}
use Prim.Native.Nat.{bit_and, bit_xor}

-- `fnv1a`, from the hash `h` on.
unfoldable pub fnv1a : ℕ → List ℕ → ℕ
fnv1a h [] = h
fnv1a h (c ∷ s) = fnv1a (bit_xor h c * 1099511628211 % 2 ^ 64) s

abbrev pub basis : ℕ
basis = 1469598103934665603

pub pair_hash : List ℕ → List ℕ → ℕ
pair_hash a b = bit_xor (fnv1a basis a * 1000003 % 2 ^ 64) (fnv1a basis b)

-- `next_pow2` for `v` up to 2^31, where `p` does not wrap around; doubling reaches `v` in `v` rounds.
unfoldable pub next_pow2 : ℕ → ℕ
next_pow2 v = double_to v 16 v

-- How the walk over a table ends: at an entry, at an empty bucket, or, with fuel that is too small,
-- nowhere.
pub data WalkEnd : Type 0 where
  at : ℕ → WalkEnd
  empty : WalkEnd
  nowhere : WalkEnd

-- The tables hold indices; -1 is `none`.
abbrev pub Buckets : Type 0
Buckets = List (Option ℕ)

abbrev pub advance : ℕ → ℕ → ℕ
advance mask i = bit_and (i + 1) mask

-- The bucket of a hash: `(uint32_t)h & mask`.
abbrev pub home : ℕ → ℕ → ℕ
home mask h = bit_and (h % 2 ^ 32) mask

-- `while (bucket[i] >= 0) i = (i + 1) & mask; bucket[i] = idx;`, with fuel.
unfoldable pub bucket_put : ℕ → ℕ → ℕ → ℕ → Buckets → Buckets
bucket_put zero mask i idx b = b
bucket_put (suc f) mask i idx b = elim (get_or b i none) [
  | none ↦ set b i (some idx)
  | some e ↦ bucket_put f mask (advance mask i) idx b
]

-- The walk of `vocab_get` and `merge_rank`: `test` compares the entry at an index.
unfoldable pub bucket_get : ℕ → ℕ → ℕ → (ℕ → Bool) → Buckets → WalkEnd
bucket_get zero mask i test b = nowhere
bucket_get (suc f) mask i test b = elim (get_or b i none) [
  | none ↦ empty
  | some e ↦ elim (test e) [ true ↦ at e | false ↦ bucket_get f mask (advance mask i) test b ]
]

-- The entries from index `i` on, put one after the other; a table of `mask + 1` buckets is searched
-- in as many rounds.
unfoldable pub put_all : ℕ → ℕ → List ℕ → Buckets → Buckets
put_all mask i [] b = b
put_all mask i (h ∷ hs) b = put_all mask (i + 1) hs (bucket_put (mask + 1) mask (home mask h) i b)

-- A table for entries with these hashes.
unfoldable pub build_table : ℕ → List ℕ → Buckets
build_table mask hs = put_all mask 0 hs (replicate (mask + 1) none)

-- `vocab_entry_t` and `merge_entry_t`
pub record Entry : Type 0 where
  pub str : List ℕ
  pub id : ℕ

pub record Merge : Type 0 where
  pub a : List ℕ
  pub b : List ℕ
  pub rank : ℕ

abbrev pub word_hash : Entry → ℕ
word_hash x = fnv1a basis x.str

abbrev pub merge_hash : Merge → ℕ
merge_hash m = pair_hash m.a m.b

abbrev pub is_word : List ℕ → Entry → Bool
is_word s x = equal_bytes x.str s

abbrev pub is_pair : List ℕ → List ℕ → Merge → Bool
is_pair a b m = equal_bytes m.a a && equal_bytes m.b b

-- A test on the entry at an index.
abbrev pub passes {ℓ} : {A : Type ℓ} → (A → Bool) → Option A → Bool
passes test none = false
passes test (some x) = test x

-- The entry that a walk ended at, if it ended.
abbrev pub entry_at {ℓ} : {A : Type ℓ} → List A → WalkEnd → Option (Option A)
entry_at xs (at e) = some (get_elem? xs e)
entry_at xs empty = some none
entry_at xs nowhere = none

-- The walk over the table with `mask`, from the bucket of the hash `h`.
unfoldable pub entry_of {ℓ} :
    {A : Type ℓ} → List A → ℕ → ℕ → (A → Bool) → Buckets → Option (Option A)
entry_of xs mask h test b =
    entry_at xs (bucket_get (mask + 1) mask (home mask h) (λ e. passes test (get_elem? xs e)) b)

-- `vmask` and `mmask` for as many entries.
abbrev pub vmask : ℕ → ℕ
vmask n = next_pow2 (n * 2 % 2 ^ 32) - 1

abbrev pub mmask : ℕ → ℕ
mmask k = next_pow2 ((if ltb 0 k then k else 1) * 2 % 2 ^ 32) - 1

abbrev pub id_of : Option Entry → Option ℕ
id_of none = none
id_of (some x) = some x.id

abbrev pub rank_of : Option Merge → Option ℕ
rank_of none = none
rank_of (some m) = some m.rank

abbrev pub answer {ℓ} : {A : Type ℓ} → (Option A → Option ℕ) → Option (Option A) → Option (Option ℕ)
answer value none = none
answer value (some o) = some (value o)

-- `vocab_get` on the table that `vv_tokenizer_load` makes; the outer `none` is no answer.
unfoldable pub vocab_get : List Entry → List ℕ → Option (Option ℕ)
vocab_get ventry s =
    let mask = vmask (length ventry) in
    let b = build_table mask (map word_hash ventry) in
    answer id_of (entry_of ventry mask (fnv1a basis s) (is_word s) b)

-- `merge_rank`, likewise.
unfoldable pub merge_rank : List Merge → List ℕ → List ℕ → Option (Option ℕ)
merge_rank mentry a b =
    let mask = mmask (length mentry) in
    let t = build_table mask (map merge_hash mentry) in
    answer rank_of (entry_of mentry mask (pair_hash a b) (is_pair a b) t)
