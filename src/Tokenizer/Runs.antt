-- ===== src/Tokenizer/Runs.antt =====
-- The tokenizer of src/text_tokenizer/bpe.c with a small vocabulary: the 256 bytes, `he`, and the
-- special token `<|x|>`.
use vibevoice_c.Common.{
  starts_with, equal_bytes, equal_bytes-eq, all_below, all_below_sound, double_to, ℕ, zero, suc,
  ◌+◌, ◌^◌, ◌<◌, ◌≤◌, ◌≡◌, ◌⊎◌, refl, ap, Bool, true, false, Option, none, some, List, [], ◌∷◌,
  ◌++◌, ltb, leb, ◌==◌, ◌&&◌, if◌then◌else◌, length, arith, inl, inr, Bool-cases, Option-cases,
  get_or, All,
}
use mathlib.Core.Path.{subst}
use vibevoice_c.Tokenizer.Utf8.{utf8_put, utf8_get, byte_to_cp, cp_to_byte, tables, build}
use vibevoice_c.Tokenizer.RoundTrip.{utf8_get-utf8_put}
use vibevoice_c.Tokenizer.Split.{
  next_piece, contraction, word, run_while, cp_is_letter, cp_is_digit, cp_is_sym, cp_is_space,
  digit, symbols, white, spaces, line_ends,
}
use vibevoice_c.Tokenizer.Bounds.{next_piece-bounds}
use vibevoice_c.Tokenizer.Merge.{
  Sym, byte_level, chars, merge_at, merge_loop, find_best, bpe_piece, known_id, push_syms, push_id,
  encode_pieces, encode_text_run,
}
use vibevoice_c.Tokenizer.Tiles.{IsByte}
use vibevoice_c.Tokenizer.Best.{ranks, IsNone, IsLeast, find_best-cases}
use vibevoice_c.Tokenizer.Words.{merge_loop-IsNone, IsComplete}
use vibevoice_c.Tokenizer.Codec.{
  Tokenizer, encode, encode_loop, flush_run, hit, find_special, decode_write, decode_bound,
  decode_id, decode_chars, token_at, find_added,
}
use vibevoice_c.Tokenizer.Clean.{is_clean}
use vibevoice_c.Tokenizer.Decode.{IsClean, decode_write-decode_bound}
use vibevoice_c.Tokenizer.Sound.{IsSound}
use vibevoice_c.Tokenizer.Table.{
  Entry, Merge, entry_of, bucket_get, build_table, put_all, bucket_put, next_pow2, fnv1a, vocab_get,
  merge_rank, id_of, rank_of, is_word, is_pair,
}
use vibevoice_c.Tokenizer.Lookup.{find_first, vocab_get-find_first, merge_rank-find_first}
use vibevoice_c.Tokenizer.Encode.{decode_write-encode}

-- The words of the bytes from `b` on, `n` of them.
abbrev bytes_from : ℕ → ℕ → List (List ℕ)
bytes_from zero b = []
bytes_from (suc n) b = byte_level (b ∷ []) ∷ bytes_from n (b + 1)

abbrev he : List ℕ
he = b'h' ∷ b'e' ∷ []

abbrev mark : List ℕ
mark = b'<' ∷ b'|' ∷ b'x' ∷ b'|' ∷ b'>' ∷ []

abbrev words : List (List ℕ)
words = bytes_from 256 0 ++ he ∷ []

-- The first index of a word.
unfoldable word_index : List (List ℕ) → ℕ → List ℕ → Option ℕ
word_index [] i s = none
word_index (w ∷ ws) i s =
    let rest = word_index ws (i + 1) s in if equal_bytes w s then some i else rest

abbrev stored : List (List ℕ) → List (Option (List ℕ))
stored [] = some mark ∷ []
stored (w ∷ ws) = some w ∷ stored ws

abbrev h_e_rank : List ℕ → List ℕ → Option ℕ
h_e_rank x y = if equal_bytes x (b'h' ∷ []) && equal_bytes y (b'e' ∷ []) then some 0 else none

abbrev small : Tokenizer
small = record {
  lookups = record { merge_rank = h_e_rank; vocab_get = word_index words 0 };
  id_to_token = stored words;
  specials = record { str = mark; id = 257; is_special = true } ∷ [];
}

-- An index that was found is in the list, and the word stands there.
word_index_lem :
    (ws : List (List ℕ)) (i : ℕ) (s : List ℕ) (id : ℕ)
    → word_index ws i s ≡ some id
    → (k : ℕ) × (id ≡ i + k) × (k < length ws) × (get_or (stored ws) k none ≡ some s)
unfolding word_index
word_index_lem [] i s id e = absurd (ground arith)
word_index_lem (w ∷ ws) i s id e = elim (Bool-cases (equal_bytes w s)) [
  | inl t ↦
      let here : i ≡ id = ground (arith, e, t) in
      (0, omega arith, omega arith, ap (λ (x : List ℕ). some x) (equal_bytes-eq w s t))
  | inr f ↦
      let (k, p, q, r) = word_index_lem ws (i + 1) s id (ground (arith, e, f)) in
      (suc k, omega arith, omega arith, r)
]

abbrev has_word : ℕ → Bool
has_word b = elim (word_index words 0 (byte_level (b ∷ []))) [ none ↦ false | some id ↦ true ]

has_word_table : all_below 256 has_word ≡ true
unfolding all_below word_index equal_bytes byte_level utf8_put byte_to_cp tables build
has_word_table = refl

he_index : word_index words 0 he ≡ some 256
unfolding word_index equal_bytes byte_level utf8_put byte_to_cp tables build
he_index = refl

small-IsComplete : IsComplete small.lookups
small-IsComplete = record {
  has_byte = λ b h.
      (let k = all_below_sound 256 has_word b has_word_table h in
        elim (Option-cases (word_index words 0 (byte_level (b ∷ [])))) [
          | inl e ↦ absurd (ground (arith, e, k))
          | inr (id, e) ↦ (id, e)
        ]);
  has_merge = λ x y r e.
      elim (Bool-cases (equal_bytes x (b'h' ∷ []) && equal_bytes y (b'e' ∷ []))) [
        | inl t ↦
            (let front : x ≡ b'h' ∷ [] = equal_bytes-eq x (b'h' ∷ []) (ground (arith, t)) in
              let back : y ≡ b'e' ∷ [] = equal_bytes-eq y (b'e' ∷ []) (ground (arith, t)) in
              (256, rw (front, back) he_index))
        | inr f ↦ absurd (ground (arith, e, f))
      ];
}

-- A word of the vocabulary stands at its identifier, which is not the special token's.
small-listed :
    (s : List ℕ) (id : ℕ)
    → word_index words 0 s ≡ some id
    → (token_at small id ≡ some s) × (find_added small.specials id ≡ none)
unfolding token_at find_added
small-listed s id e =
    (let (k, p, q, r) = word_index_lem words 0 s id e in
      let same_k : k ≡ id = omega arith in
      let below : id < 257 = omega (arith, q) in
      let near : leb (2 ^ 31) id ≡ false = ground arith in
      let other : 257 == id ≡ false = ground arith in
      (rw near (subst (λ (j : ℕ). get_or (stored words) j none ≡ some s) same_k r), rw other refl))

small-IsSound : IsSound small
unfolding token_at find_added
small-IsSound = record {
  complete = small-IsComplete;
  listed = λ s id e. (small-listed s id e).0;
  plain = λ s id e. (small-listed s id e).1;
  specials_listed =
      ((omega arith, refl, (record { str = mark; id = 257; is_special = true }, refl)), tt);
}

abbrev memory : ℕ → Bool
memory n = true

abbrev all_bytes : List ℕ → Bool
all_bytes [] = true
all_bytes (x ∷ xs) = ltb x 256 && all_bytes xs

abbrev text : List ℕ
text = b'h' ∷ b'e' ∷ mark ++ b'!' ∷ 0xC3 ∷ []

bytes_of : (xs : List ℕ) → all_bytes xs ≡ true → All IsByte xs
bytes_of [] e = tt
bytes_of (x ∷ xs) e = (ground (arith, e), bytes_of xs (ground (arith, e)))

text-encode : encode small memory text ≡ some (256 ∷ 257 ∷ 33 ∷ 0xC3 ∷ [])
unfolding encode hit find_special starts_with flush_run encode_loop encode_text_run encode_pieces
    bpe_piece byte_level next_piece contraction utf8_get utf8_put byte_to_cp tables build word
    run_while cp_is_letter cp_is_digit cp_is_sym cp_is_space digit symbols white spaces line_ends
    chars merge_loop merge_at find_best push_syms known_id push_id word_index equal_bytes
text-encode = refl

decode_write-encode_example :
    (ids : List ℕ) × (encode small memory text ≡ some ids) × (decode_write small false ids ≡ text)
decode_write-encode_example =
    decode_write-encode small small-IsSound memory (λ n. refl) text (bytes_of text refl)

utf8_get-utf8_put_example :
    utf8_get (utf8_put 0x20AC ++ b'!' ∷ []) ≡ (length (utf8_put 0x20AC), 0x20AC)
utf8_get-utf8_put_example = utf8_get-utf8_put 0x20AC (b'!' ∷ []) (omega arith)

abbrev quoted : List ℕ
quoted = b'a' ∷ b'\'' ∷ b's' ∷ []

next_piece-bounds_example : (0 < next_piece quoted) × (next_piece quoted ≤ length quoted)
next_piece-bounds_example = next_piece-bounds quoted (omega arith)

-- `hhe`
abbrev buffer : List ℕ
buffer = b'h' ∷ he

abbrev symbols_of : List Sym
symbols_of =
    record { start = 0; len = 1 }
    ∷ record { start = 1; len = 1 }
    ∷ record { start = 2; len = 1 }
    ∷ []

find_best-cases_example :
    ((find_best small.lookups buffer 0 none symbols_of ≡ none)
      × All IsNone (ranks small.lookups buffer symbols_of))
    ⊎ ((r : ℕ) × ((j : ℕ) × (find_best small.lookups buffer 0 none symbols_of ≡ some (r, j))
          × IsLeast (ranks small.lookups buffer symbols_of) r j))
find_best-cases_example = find_best-cases small.lookups buffer symbols_of

merge_loop-IsNone_example :
    All IsNone (ranks small.lookups buffer (merge_loop small.lookups 3 buffer symbols_of))
merge_loop-IsNone_example = merge_loop-IsNone small.lookups buffer 3 symbols_of (omega arith)

abbrev clean_all : List (Option (List ℕ)) → Bool
clean_all [] = true
clean_all (none ∷ xs) = clean_all xs
clean_all (some x ∷ xs) = is_clean (length x) x && clean_all xs

clean_all-IsClean : (xs : List (Option (List ℕ))) → clean_all xs ≡ true → All IsClean xs
clean_all-IsClean [] e = tt
clean_all-IsClean (none ∷ xs) e = (tt, clean_all-IsClean xs e)
clean_all-IsClean (some x ∷ xs) e = (ground (arith, e), clean_all-IsClean xs (ground (arith, e)))

stored-IsClean : All IsClean (stored words)
unfolding is_clean utf8_get utf8_put byte_to_cp tables build byte_level
stored-IsClean = clean_all-IsClean (stored words) refl

decode_write-decode_bound_example :
    length (decode_write small false (0xC3 ∷ 257 ∷ [])) ≤ decode_bound small (0xC3 ∷ 257 ∷ [])
decode_write-decode_bound_example =
    decode_write-decode_bound small false (0xC3 ∷ 257 ∷ []) stored-IsClean

-- A token that is a byte from 0x80 on alone, not UTF-8, is decoded to two bytes.
abbrev stray : Tokenizer
stray = record small { id_to_token = some (0x80 ∷ []) ∷ []; specials = [] }

stray_overruns :
    (decode_bound stray (0 ∷ []) ≡ 1) × (length (decode_write stray false (0 ∷ [])) ≡ 2)
unfolding decode_bound decode_write decode_id decode_chars token_at find_added utf8_get utf8_put
    cp_to_byte tables build
stray_overruns = (refl, refl)

-- A space of three bytes before a digit is cut in two.
space_is_cut : next_piece (0xE3 ∷ 0x80 ∷ 0x80 ∷ b'1' ∷ []) ≡ 2
unfolding next_piece contraction word run_while digit symbols white spaces line_ends utf8_get
    cp_is_space cp_is_letter cp_is_digit cp_is_sym
space_is_cut = refl

-- A letter of a supplementary plane is taken for a symbol.
supplementary_letter : cp_is_letter 0x20000 ≡ false
unfolding cp_is_letter cp_is_space cp_is_digit cp_is_sym
supplementary_letter = refl

-- A vocabulary with `he` twice, and a merge.
abbrev entries : List Entry
entries =
    record { str = b'e' ∷ []; id = 4 }
    ∷ record { str = he; id = 7 }
    ∷ record { str = he; id = 9 }
    ∷ []

abbrev merges : List Merge
merges = record { a = b'h' ∷ []; b = b'e' ∷ []; rank = 0 } ∷ []

vocab_get-find_first_example : vocab_get entries he ≡ some (id_of (find_first (is_word he) entries))
vocab_get-find_first_example = vocab_get-find_first entries he (omega arith)

merge_rank-find_first_example :
    merge_rank merges (b'h' ∷ []) (b'e' ∷ [])
    ≡ some (rank_of (find_first (is_pair (b'h' ∷ []) (b'e' ∷ [])) merges))
merge_rank-find_first_example = merge_rank-find_first merges (b'h' ∷ []) (b'e' ∷ []) (omega arith)

he_twice : vocab_get entries he ≡ some (some 7)
unfolding vocab_get entry_of bucket_get build_table put_all bucket_put next_pow2 double_to fnv1a
    equal_bytes
he_twice = refl
