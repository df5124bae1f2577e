-- ===== src/Tokenizer/Encode.antt =====
-- Decoding what `vv_tokenizer_encode` of src/text_tokenizer/bpe.c made of a text gives the text back.
use vibevoice_c.Common.{
  starts_with-append, starts_with, ℕ, zero, suc, ◌+◌, ◌*◌, ◌/◌, ◌≤◌, ◌≡◌, ◌⊎◌, ◌∙◌, refl, ap, Bool,
  true, false, Option, none, some, List, [], ◌∷◌, ◌++◌, append-nil, append_assoc, ◌==◌, drop,
  length, arith, inl, inr, Bool-cases, All, length-drop,
}
use mathlib.Core.Path.{subst}
use vibevoice_c.Tokenizer.Merge.{Ids, push_id}
use vibevoice_c.Tokenizer.Tiles.{IsByte}
use vibevoice_c.Tokenizer.Codec.{
  Tokenizer, Special, find_special, hit, flush_run, encode_loop, encode, decode_id, decode_write,
}
use vibevoice_c.Tokenizer.Sound.{IsListed, IsSound, IsByte-front, IsByte-back}
use vibevoice_c.Tokenizer.Emit.{text_of, Emits, push_id-Emits, Emits-then, flush_run-Emits}

module _ (t : Tokenizer) (sound : IsSound t) (alloc : ℕ → Bool)
    (plenty : (n : ℕ) → alloc n ≡ true) where
  find_special-cases :
      (sps : List Special) (s : List ℕ)
      → All (IsListed t) sps
      → (find_special sps s ≡ none)
        ⊎ ((sp : Special) × (find_special sps s ≡ some sp)
            × IsListed t sp
            × (starts_with sp.str s ≡ true))
  unfolding find_special
  find_special-cases [] s a = inl refl
  find_special-cases (sp ∷ sps) s a = elim (Bool-cases (starts_with sp.str s)) [
    | inl e ↦ inr (sp, rw e refl, a.0, e)
    | inr e ↦ elim (find_special-cases sps s a.1) [
      | inl n ↦ inl (rw (e, n) refl)
      | inr (q, n, l, m) ↦ inr (q, rw (e, n) refl, l, m)
    ]
  ]

  special_token : (sp : Special) → IsListed t sp → decode_id t false sp.id ≡ sp.str
  unfolding decode_id
  special_token sp l = let (q, e) = l.2 in rw (decode_id, l.1, e) refl

  hit-cases :
      (c : ℕ) (s : List ℕ)
      → (hit t.specials c s ≡ none)
        ⊎ ((sp : Special) × (hit t.specials c s ≡ some sp)
            × IsListed t sp
            × (starts_with sp.str (c ∷ s) ≡ true))
  unfolding hit
  hit-cases c s = elim (Bool-cases (c == b'<')) [
    | inl e ↦ rw e (find_special-cases t.specials (c ∷ s) sound.specials_listed)
    | inr e ↦ inl (rw e refl)
  ]

  -- A special token, after what the run so far gives.
  special-Emits :
      (run text : List ℕ) (out : Ids) (sp : Special)
      → All IsByte run
      → IsListed t sp
      → starts_with sp.str text ≡ true
      → (out' : Ids) × (flush_run t alloc run out ≡ some out')
        × ((out'' : Ids) × (push_id t.lookups alloc out' sp.id ≡ some out'')
            × ((o : Option Ids)
                → Emits t out'' (drop (length sp.str) text) o
                → Emits t out (run ++ text) o))
  special-Emits run text out sp a l e =
      (let (out', f, k) = flush_run-Emits t sound alloc plenty run out a in
        let (out'', g, m) = push_id-Emits t sound alloc plenty out' sp.id in
        let token : text_of t out'' ≡ text_of t out' ++ sp.str =
          m ∙ ap (λ (x : List ℕ). text_of t out' ++ x) (special_token sp l) in
        let rest = drop (length sp.str) text in
        (
          out',
          f,
          (
            out'',
            g,
            λ o h.
                subst (λ (x : List ℕ). Emits t out (run ++ x) o) (starts_with-append sp.str text e)
                  (Emits-then t sound alloc plenty out run (sp.str ++ rest) o out' k
                    (Emits-then t sound alloc plenty out' sp.str rest o out'' token h)),
          ),
        ))

  encode_loop-Emits :
      (f : ℕ) (run s : List ℕ) (out : Ids)
      → All IsByte (run ++ s)
      → length s ≤ f
      → Emits t out (run ++ s) (encode_loop t alloc f run s out)
  unfolding encode_loop
  encode_loop-Emits zero run [] out a h =
      rw (append-nil run) (flush_run-Emits t sound alloc plenty run out (IsByte-front run [] a))
  encode_loop-Emits zero run (c ∷ s) out a h = absurd (omega arith)
  encode_loop-Emits (suc f) run [] out a h =
      rw (append-nil run) (flush_run-Emits t sound alloc plenty run out (IsByte-front run [] a))
  encode_loop-Emits (suc f) run (c ∷ s) out a h = elim (hit-cases c s) [
    | inl e ↦
        (let same : (run ++ c ∷ []) ++ s ≡ run ++ (c ∷ s) = append_assoc run (c ∷ []) s in
          rw (encode_loop, e)
            (subst (λ (x : List ℕ). Emits t out x (encode_loop t alloc f (run ++ c ∷ []) s out))
              same (encode_loop-Emits f (run ++ c ∷ []) s out (rw same a) (omega arith))))
    | inr (sp, e, l, m) ↦
        (let (out', g, (out'', k, go)) =
            special-Emits run (c ∷ s) out sp (IsByte-front run (c ∷ s) a) l m in
          let rest = drop (length sp.str) (c ∷ s) in
          let bytes : All IsByte rest =
            IsByte-back sp.str rest
              (rw (starts_with-append sp.str (c ∷ s) m) (IsByte-back run (c ∷ s) a)) in
          rw (encode_loop, e, g, k)
            (go (encode_loop t alloc f [] rest out'') (
              encode_loop-Emits f [] rest out'' bytes
                (omega (arith, length-drop (length sp.str) (c ∷ s), l.0, h)))))
  ]

  -- Encoding succeeds, and decoding what it made gives the text, special tokens included: if the
  -- tables belong together, the text consists of bytes, and no memory is refused.
  pub decode_write-encode :
      (text : List ℕ)
      → All IsByte text
      → (ids : List ℕ) × (encode t alloc text ≡ some ids) × (decode_write t false ids ≡ text)
  unfolding encode decode_write
  decode_write-encode text a =
      (let cap = length text / 2 + 32 in
        let (out, e, k) =
          encode_loop-Emits (length text) [] text (record { ids = []; cap = cap }) a
            (omega arith) in
        (out.ids, rw (plenty (cap * 4), e) refl, k))
