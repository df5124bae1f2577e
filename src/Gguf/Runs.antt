-- ===== src/Gguf/Runs.antt =====
-- The size of a tensor of src/model/gguf.c: three rows of 64 in blocks of 32, each of 18 bytes.
use vibevoice_c.Common.{ℕ, ◌≡◌, ◌%◌, some, List, [], ◌∷◌, get_or, arith, refl}
use vibevoice_c.Gguf.{Traits, k_traits, find, nbytes, elements, bytes_of, any_negative}
use vibevoice_c.Gguf.Sizes.{exact_bytes, product, nbytes_is_exact}

abbrev q4_0 : ℕ
q4_0 = 2

abbrev shape : List ℕ
shape = 64 ∷ 3 ∷ 1 ∷ 1 ∷ []

size : nbytes q4_0 shape ≡ 108
unfolding nbytes find elements bytes_of any_negative
size = refl

nbytes_is_exact_example :
    (t : Traits) × (find q4_0 k_traits ≡ some t)
    × (get_or shape 0 0 % t.blck ≡ 0)
    × (nbytes q4_0 shape ≡ exact_bytes q4_0 t (product 1 shape))
nbytes_is_exact_example = nbytes_is_exact q4_0 shape (λ e. omega (arith, size, e))
