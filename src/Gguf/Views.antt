-- ===== src/Gguf/Views.antt =====
-- The views of src/model/gguf.c read the scale inside the tensor.
use vibevoice_c.Common.{
  ℕ, ◌+◌, ◌*◌, ◌/◌, ◌^◌, ◌<◌, ◌≤◌, ◌≡◌, ◌≢◌, ◌∙◌, ap, refl, Bool, true, some, List, [], ◌∷◌, ◌==◌,
  get_elem?, length, arith, Status, All-get_elem?,
}
use native.Mathlib.Nat.{mod-eq_of_lt}
use vibevoice_c.Gguf.{nbytes, i2_s}
use vibevoice_c.Gguf.Sizes.{product, nbytes_is_exact, nbytes-product}
use vibevoice_c.Gguf.Parse.{Tensor, Gguf, opened, nelements, open_memory}
use vibevoice_c.Gguf.Access.{i2s_view}
use vibevoice_c.Gguf.Inside.{IsInside, open_memory-IsLaidOut}

-- The product that wraps around is the product, if that is small.
nelements-product :
    (ne : List ℕ) → length ne ≡ 4 → product 1 ne ≤ 2 ^ 62 → nelements ne ≡ product 1 ne
unfolding nelements product
nelements-product (a ∷ b ∷ c ∷ d ∷ []) l h =
    (let one : 1 * a ≡ a = omega arith in
      let low : 1 * a * b * c * d < 2 ^ 64 = omega (arith, h) in
      let small : a * b * c * d < 2 ^ 64 = rw one at low in rw one (mod-eq_of_lt small))
nelements-product [] l h = absurd (omega arith)
nelements-product (a ∷ []) l h = absurd (omega arith)
nelements-product (a ∷ b ∷ []) l h = absurd (omega arith)
nelements-product (a ∷ b ∷ c ∷ []) l h = absurd (omega arith)
nelements-product (a ∷ b ∷ c ∷ d ∷ e ∷ r) l h = absurd (omega arith)

-- The scale of an I2_S tensor of an accepted file is read from the four bytes directly behind the codes
-- of all its elements, of which four take a byte, and they are inside the tensor, which is inside the
-- file: if the tensor has data and its size is not 0.
pub i2s_view-open_memory :
    (alloc : ℕ → Bool) (base : List ℕ) (g : Gguf) (i : ℕ) (t : Tensor) (d : ℕ)
    → open_memory alloc base ≡ opened g
    → get_elem? g.tensors i ≡ some t
    → t.type ≡ i2_s
    → t.data_at ≡ some d
    → t.nbytes ≢ 0
    → (p : ℕ) × (i2s_view t ≡ (Status.ok, some p))
      × (p ≡ d + product 1 t.ne / 4)
      × (p + 4 ≤ d + t.nbytes)
      × (d + t.nbytes ≤ length base)
unfolding i2s_view
i2s_view-open_memory alloc base g i t d e at_i ty at_d k =
    (let laid = open_memory-IsLaidOut alloc base g e in
      let inside =
        All-get_elem? (IsInside (length base) g.alignment g.data_offset) g.tensors i laid.inside
          at_i d at_d in
      let size : t.nbytes ≡ nbytes t.type t.ne = inside.3 in
      let some_bytes : nbytes t.type t.ne ≢ 0 = λ z. k (size ∙ z) in
      let small = nbytes-product t.type t.ne some_bytes in
      let (tr, f, m, x) = nbytes_is_exact t.type t.ne some_bytes in
      let exact : nbytes t.type t.ne ≡ product 1 t.ne / 4 + 32 = x ∙ (rw ty refl) in
      let n = nelements-product t.ne inside.4 small in
      let here : t.type == i2_s ≡ true = rw ty refl in
      (
        d + nelements t.ne / 4,
        rw (here, at_d) refl,
        ap (λ (m : ℕ). d + m / 4) n,
        omega (arith, size, exact, n),
        inside.1,
      ))
