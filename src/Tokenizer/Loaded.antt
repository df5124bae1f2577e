-- ===== src/Tokenizer/Loaded.antt =====
-- A tokenizer that `vv_tokenizer_load` of src/text_tokenizer/bpe.c made: encoding and decoding with it.
use vibevoice_c.Common.{
  equal_bytes-eq, ℕ, ◌-◌, ◌<◌, ◌≤◌, ◌^◌, ◌≡◌, ◌∙◌, sym, ap, Bool, true, false, none, some, List, [],
  ◌∷◌, ◌++◌, leb, get_or, map, replicate, length, length-replicate, arith, inl, inr, Option-cases,
  All, All-imp,
}
use vibevoice_c.Tokenizer.Merge.{byte_level}
use vibevoice_c.Tokenizer.Tiles.{IsByte}
use vibevoice_c.Tokenizer.Words.{IsComplete}
use vibevoice_c.Tokenizer.Codec.{Special, token_at, encode, decode_write}
use vibevoice_c.Tokenizer.Sound.{IsSound}
use vibevoice_c.Tokenizer.Encode.{decode_write-encode}
use vibevoice_c.Tokenizer.Table.{Entry, is_word, is_pair, id_of, rank_of}
use vibevoice_c.Tokenizer.Lookup.{find_first, vocab_get-find_first, merge_rank-find_first}
use vibevoice_c.Tokenizer.Load.{
  MergeItem, AddedItem, read_merges, read_added, load_specials, max_id_of, name_all, given,
  capacity, load,
}
use vibevoice_c.Tokenizer.Names.{
  Named, max_id_of-bound, length-name_all, name_all-stays, name_all-names,
}
use vibevoice_c.Tokenizer.Entries.{
  find_first-All, load_specials-All, map-All, All-map, All-both, find_added-none, found_all,
}

-- A file whose parts belong together: an identifier stands for one text, `word id`, either of the
-- vocabulary or of an added token, which is not empty; each byte and each merge has a word; and the
-- sizes fit the code's numbers.
pub record IsUsable (ventry : List Entry) (merges : List MergeItem) (added : List AddedItem)
    : Type 0 where
  pub word : ℕ → List ℕ
  pub is_added : ℕ → Bool
  pub words_fit :
      All (λ x. (x.str ≡ word x.id) × (x.id < 2 ^ 31 - 1) × (is_added x.id ≡ false)) ventry
  pub added_fit :
      All
        (λ sp.
          (sp.str ≡ word sp.id)
          × (sp.id < 2 ^ 31 - 1)
          × (is_added sp.id ≡ true)
          × (0 < length sp.str))
        (read_added added)
  pub few_words : length ventry ≤ 2 ^ 30
  pub few_merges : length (read_merges 0 merges) ≤ 2 ^ 30
  pub has_byte :
      (b : ℕ) → b < 256 → (x : Entry) × (find_first (is_word (byte_level (b ∷ []))) ventry ≡ some x)
  pub has_merge :
      All
        (λ m. (x : Entry) × (find_first (is_word (m.a ++ m.b)) ventry ≡ some x))
        (read_merges 0 merges)

module _ (ventry : List Entry) (merges : List MergeItem) (added : List AddedItem)
    (u : IsUsable ventry merges added) where
  below_cap :
      All (λ (x : Entry). x.id < capacity ventry (read_added added)) ventry
      × All (λ (sp : Special). sp.id < capacity ventry (read_added added)) (read_added added)
  below_cap =
      (let ids = map (λ (x : Entry). x.id) ventry in
        let more = map (λ (sp : Special). sp.id) (read_added added) in
        let first = max_id_of 0 ids in
        let b = max_id_of-bound ids 0 (
          All-map (λ (x : Entry). x.id) (λ id. id < 2 ^ 31) ventry
            (All-imp ventry (λ x h. omega (arith, h.1)) u.words_fit)) in
        let c = max_id_of-bound more first (
          All-map (λ (sp : Special). sp.id) (λ id. id < 2 ^ 31) (read_added added)
            (All-imp (read_added added) (λ x h. omega (arith, h.1)) u.added_fit)) in
        (
          All-imp ventry (λ x h. omega (arith, h, c.0))
              (map-All (λ (x : Entry). x.id) (λ id. id ≤ first) ventry b.1),
          All-imp (read_added added) (λ x h. omega (arith, h))
              (map-All (λ (x : Special). x.id) (λ id. id ≤ max_id_of first more) (read_added added)
                c.1),
        ))

  word_Named :
      All
        (Named
          (λ (x : Entry). x.id)
          (λ (x : Entry). x.str)
          u.word
          (capacity ventry (read_added added)))
        ventry
  word_Named =
      All-imp ventry (λ x h. (h.0.0, omega (arith, h.0.1), h.1))
        (All-both _ _ ventry u.words_fit below_cap.0)

  added_Named :
      All
        (Named
          (λ (x : Special). x.id)
          (λ (x : Special). x.str)
          u.word
          (capacity ventry (read_added added)))
        (load_specials added)
  added_Named = load_specials-All _ added (
      All-imp (read_added added) (λ x h. (h.0.0, omega (arith, h.0.1), h.1))
        (All-both _ _ (read_added added) u.added_fit below_cap.1))

  size_of_names :
      length (
        name_all
          (λ (x : Entry). x.id)
          (λ (x : Entry). x.str)
          (capacity ventry (read_added added))
          ventry
          (replicate (capacity ventry (read_added added)) none))
      ≡ capacity ventry (read_added added)
  size_of_names =
      length-name_all (λ (x : Entry). x.id) (λ (x : Entry). x.str) u.word
        (capacity ventry (read_added added)) ventry _
      ∙ length-replicate (capacity ventry (read_added added)) none

  word_stands_at :
      (x : Entry)
      → (get_or
            (name_all
              (λ (y : Entry). y.id)
              (λ (y : Entry). y.str)
              (capacity ventry (read_added added))
              ventry
              (replicate (capacity ventry (read_added added)) none))
            x.id
            none
          ≡ some x.str)
        × Named
            (λ (y : Entry). y.id)
            (λ (y : Entry). y.str)
            u.word
            (capacity ventry (read_added added))
            x
      → token_at (load ventry merges added) x.id ≡ some x.str
  unfolding load token_at
  word_stands_at x h =
      (let near : leb (2 ^ 31) x.id ≡ false = ground (arith, h.1.1) in
        rw near (
          name_all-stays (λ (y : Special). y.id) (λ (y : Special). y.str) u.word
            (capacity ventry (read_added added)) (load_specials added) _ x.id added_Named
            size_of_names (h.0 ∙ ap (λ (s : List ℕ). some s) h.1.0)
          ∙ ap (λ (s : List ℕ). some s) (sym h.1.0)))

  -- What `id_to_token` holds for an entry of the vocabulary, and for an added token.
  word_stands : All (λ (x : Entry). token_at (load ventry merges added) x.id ≡ some x.str) ventry
  word_stands =
      (let cap = capacity ventry (read_added added) in
        All-imp ventry word_stands_at (
          All-both _ _ ventry
            (name_all-names (λ (x : Entry). x.id) (λ (x : Entry). x.str) u.word cap ventry
              (replicate cap none) word_Named (length-replicate cap none))
            word_Named))

  added_stands :
      All
        (λ (x : Special). token_at (load ventry merges added) x.id ≡ some x.str)
        (load_specials added)
  unfolding load token_at
  added_stands =
      (let named =
          name_all-names (λ (x : Special). x.id) (λ (x : Special). x.str) u.word
            (capacity ventry (read_added added)) (load_specials added) _ added_Named
            size_of_names in
        All-imp (load_specials added)
          (λ x h. let near : leb (2 ^ 31) x.id ≡ false = ground (arith, h.1.1) in rw near h.0)
          (All-both _ _ (load_specials added) named added_Named))

  -- The vocabulary's answer is an entry's identifier.
  looked_up :
      (s : List ℕ) (id : ℕ)
      → (load ventry merges added).lookups.vocab_get s ≡ some id
      → (x : Entry) × (find_first (is_word s) ventry ≡ some x) × (x.id ≡ id)
  unfolding load
  looked_up s id e =
      (let answer : id_of (find_first (is_word s) ventry) ≡ some id =
          ap given (sym (vocab_get-find_first ventry s u.few_words)) ∙ e in
        elim (Option-cases (find_first (is_word s) ventry)) [
          | inl n ↦
              (let gone : id_of none ≡ some id = rw n at answer in absurd (ground (arith, gone)))
          | inr (x, n) ↦
              (let here : id_of (some x) ≡ some id = rw n at answer in (x, n, ground (arith, here)))
        ])

  entry_looked_up :
      (s : List ℕ) (x : Entry)
      → find_first (is_word s) ventry ≡ some x
      → (load ventry merges added).lookups.vocab_get s ≡ some x.id
  unfolding load
  entry_looked_up s x n = ap given (vocab_get-find_first ventry s u.few_words) ∙ ap id_of n

  load-IsComplete : IsComplete (load ventry merges added).lookups
  unfolding load
  load-IsComplete = record {
    has_byte =
        λ b h. let (x, n) = u.has_byte b h in (x.id, entry_looked_up (byte_level (b ∷ [])) x n);
    has_merge = λ a b r e.
        (let mentry = read_merges 0 merges in
          let answer : rank_of (find_first (is_pair a b) mentry) ≡ some r =
            ap given (sym (merge_rank-find_first mentry a b u.few_merges)) ∙ e in
          elim (Option-cases (find_first (is_pair a b) mentry)) [
            | inl n ↦
                (let gone : rank_of none ≡ some r = rw n at answer in absurd (ground (arith, gone)))
            | inr (m, n) ↦
                (let ((x, found), same) = find_first-All _ (is_pair a b) mentry m u.has_merge n in
                  let front = equal_bytes-eq m.a a (ground (arith, same)) in
                  let back = equal_bytes-eq m.b b (ground (arith, same)) in
                  (x.id, entry_looked_up (a ++ b) x (rw (← front, ← back) found)))
          ]);
  }

  load-IsSound : IsSound (load ventry merges added)
  unfolding load
  load-IsSound = record {
    complete = load-IsComplete;
    listed = λ s id e.
        (let (x, n, same) = looked_up s id e in
          let ((st, fit), w) =
            find_first-All _ (is_word s) ventry x (All-both _ _ ventry word_stands u.words_fit) n in
          ap (token_at (load ventry merges added)) (sym same)
          ∙ st
          ∙ ap (λ (l : List ℕ). some l) (equal_bytes-eq x.str s w));
    plain = λ s id e.
        (let (x, n, same) = looked_up s id e in
          let (fit, w) = find_first-All _ (is_word s) ventry x u.words_fit n in
          find_added-none u.is_added (load_specials added) id
            (load_specials-All _ added (All-imp (read_added added) (λ sp h. h.2) u.added_fit))
            (ap u.is_added (sym same) ∙ fit.2));
    specials_listed =
        All-imp (load_specials added) (λ sp h. (h.0.3, h.1.0, h.1.1))
          (All-both _ _ (load_specials added) (load_specials-All _ added u.added_fit)
            (All-both _ _ (load_specials added) added_stands (found_all (load_specials added))));
  }

  -- A tokenizer that was loaded from a file whose parts belong together encodes every text of bytes,
  -- and decoding what it made gives the text back, special tokens included, if no memory is refused.
  pub decode_write-encode-load :
      (alloc : ℕ → Bool) (text : List ℕ)
      → ((n : ℕ) → alloc n ≡ true)
      → All IsByte text
      → (ids : List ℕ) × (encode (load ventry merges added) alloc text ≡ some ids)
        × (decode_write (load ventry merges added) false ids ≡ text)
  decode_write-encode-load alloc text plenty a =
      decode_write-encode (load ventry merges added) load-IsSound alloc plenty text a
