-- ===== src/Tokenizer/Files.antt =====
-- Loading a small tokenizer with src/text_tokenizer/bpe.c: the 256 bytes, `he`, and the added token
-- `<|x|>`.
use vibevoice_c.Common.{
  starts_with, equal_bytes, equal_bytes-eq, all_below, all_below_sound, ℕ, zero, suc, ◌+◌, ◌-◌, ◌<◌,
  ◌≤◌, ◌^◌, ◌≡◌, ◌≢◌, ◌⊎◌, refl, Bool, true, false, ◌&&◌, ◌==◌, Option, none, some, List, [], ◌∷◌,
  ltb, leb, if◌then◌else◌, length, arith, All,
}
use vibevoice_c.Tokenizer.Utf8.{utf8_put, byte_to_cp, tables, build}
use vibevoice_c.Tokenizer.Merge.{byte_level}
use vibevoice_c.Tokenizer.Codec.{Special, encode, decode_write, hit}
use vibevoice_c.Tokenizer.Table.{Entry, is_word}
use vibevoice_c.Tokenizer.Lookup.{find_first}
use vibevoice_c.Tokenizer.Load.{
  MergeItem, line, other, AddedItem, read_merges, sides, split_space, read_added, load,
  load_specials,
}
use vibevoice_c.Tokenizer.Longest.{hit-load_specials}
use vibevoice_c.Tokenizer.Loaded.{IsUsable, decode_write-encode-load}

abbrev byte_entries : ℕ → ℕ → List Entry
byte_entries zero b = record { str = b'h' ∷ b'e' ∷ []; id = b } ∷ []
byte_entries (suc n) b = record { str = byte_level (b ∷ []); id = b } ∷ byte_entries n (b + 1)

abbrev vocabulary : List Entry
vocabulary = byte_entries 256 0

abbrev merge_lines : List MergeItem
merge_lines = other ∷ line (b'h' ∷ b' ' ∷ b'e' ∷ []) ∷ []

abbrev mark_rest : List ℕ
mark_rest = b'|' ∷ b'x' ∷ b'|' ∷ b'>' ∷ []

abbrev mark : List ℕ
mark = b'<' ∷ b'|' ∷ b'x' ∷ b'|' ∷ b'>' ∷ []

-- A shorter token stands first in the file.
abbrev added_tokens : List AddedItem
added_tokens =
    record { content = some (b'<' ∷ b'|' ∷ []); id = some 257; special = none }
    ∷ record { content = some mark; id = some 258; special = some true }
    ∷ []

abbrev word_of : ℕ → List ℕ
word_of id =
    if ltb id 256
    then byte_level (id ∷ [])
    else if id == 256
    then b'h' ∷ b'e' ∷ []
    else if id == 257
    then b'<' ∷ b'|' ∷ []
    else mark

abbrev is_added : ℕ → Bool
is_added id = ltb 256 id

abbrev fits : Entry → Bool
fits x = equal_bytes x.str (word_of x.id) && leb x.id 256

abbrev fit_all : List Entry → Bool
fit_all [] = true
fit_all (x ∷ xs) = fits x && fit_all xs

fit_all_sound :
    (xs : List Entry)
    → fit_all xs ≡ true
    → All (λ x. (x.str ≡ word_of x.id) × (x.id < 2 ^ 31 - 1) × (is_added x.id ≡ false)) xs
fit_all_sound [] e = tt
fit_all_sound (x ∷ xs) e =
    (let word : equal_bytes x.str (word_of x.id) ≡ true = ground (arith, e) in
      let low : x.id ≤ 256 = ground (arith, e) in
      let rest : fit_all xs ≡ true = ground (arith, e) in
      (
        (equal_bytes-eq x.str (word_of x.id) word, omega arith, ground arith),
        fit_all_sound xs rest,
      ))

vocabulary_fits : fit_all vocabulary ≡ true
unfolding equal_bytes byte_level utf8_put byte_to_cp tables build
vocabulary_fits = refl

abbrev is_there : Option Entry → Bool
is_there none = false
is_there (some x) = true

there : (o : Option Entry) → is_there o ≡ true → (x : Entry) × (o ≡ some x)
there none e = absurd (ground (arith, e))
there (some x) e = (x, refl)

abbrev byte_found : ℕ → Bool
byte_found b = is_there (find_first (is_word (byte_level (b ∷ []))) vocabulary)

bytes_found : all_below 256 byte_found ≡ true
unfolding all_below equal_bytes byte_level utf8_put byte_to_cp tables build
bytes_found = refl

has_byte :
    (b : ℕ)
    → b < 256
    → (x : Entry) × (find_first (is_word (byte_level (b ∷ []))) vocabulary ≡ some x)
has_byte b h = there _ (all_below_sound 256 byte_found b bytes_found h)

usable : IsUsable vocabulary merge_lines added_tokens
unfolding read_merges sides split_space read_added equal_bytes byte_level utf8_put byte_to_cp tables
    build
usable = record {
  word = word_of;
  is_added = is_added;
  words_fit = fit_all_sound vocabulary vocabulary_fits;
  added_fit =
      ((refl, omega arith, refl, omega arith), ((refl, omega arith, refl, omega arith), tt));
  few_words = omega arith;
  few_merges = omega arith;
  has_byte = has_byte;
  has_merge = ((record { str = b'h' ∷ b'e' ∷ []; id = 256 }, refl), tt);
}

abbrev memory : ℕ → Bool
memory n = true

abbrev text : List ℕ
text = b'h' ∷ b'e' ∷ mark

decode_write-encode-load_example :
    (ids : List ℕ) × (encode (load vocabulary merge_lines added_tokens) memory text ≡ some ids)
    × (decode_write (load vocabulary merge_lines added_tokens) false ids ≡ text)
decode_write-encode-load_example =
    decode_write-encode-load vocabulary merge_lines added_tokens usable memory text (λ n. refl)
      (
        omega arith,
        (
          omega arith,
          (omega arith, (omega arith, (omega arith, (omega arith, (omega arith, tt))))),
        ),
      )

abbrev first_byte : ℕ
first_byte = b'<'

hit-load_specials_example :
    ((first_byte ≡ b'<')
      × ((sp : Special) × (hit (load_specials added_tokens) first_byte mark_rest ≡ some sp)
          × (starts_with sp.str mark ≡ true)
          × (2 ≤ length sp.str)))
    ⊎ ((first_byte ≢ b'<') × (hit (load_specials added_tokens) first_byte mark_rest ≡ none))
unfolding read_added starts_with
hit-load_specials_example =
    hit-load_specials added_tokens 0
      (record { str = b'<' ∷ b'|' ∷ []; id = 257; is_special = true }) first_byte mark_rest refl
      refl
