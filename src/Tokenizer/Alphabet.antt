-- ===== src/Tokenizer/Alphabet.antt =====
-- What `utf8_get` of src/text_tokenizer/bpe.c reads of what `utf8_put` wrote, and the byte alphabet.
use vibevoice_c.Common.{
  ℕ, ◌+◌, ◌%◌, ◌<◌, ◌≡◌, refl, Bool, true, false, ◌&&◌, none, some, ltb, ◌==◌, arith, bit_and_ones,
  all_below, all_below_sound,
}
use Prim.Native.Nat.{bit_and, bit_or}
use vibevoice_c.Tokenizer.Utf8.{byte_to_cp, cp_to_byte, tables, build, char}

is_coded : ℕ → Bool
is_coded b = elim (cp_to_byte (byte_to_cp b)) [ none ↦ false | some c ↦ c == b ]

is_coded_table : all_below 256 is_coded ≡ true
unfolding all_below is_coded cp_to_byte byte_to_cp tables build
is_coded_table = refl

pub cp_to_byte-byte_to_cp : (b : ℕ) → b < 256 → cp_to_byte (byte_to_cp b) ≡ some b
unfolding is_coded
cp_to_byte-byte_to_cp b h = ground (arith, all_below_sound 256 is_coded b is_coded_table h)

is_short : ℕ → Bool
is_short b = ltb (byte_to_cp b) 324

is_short_table : all_below 256 is_short ≡ true
unfolding all_below is_short byte_to_cp tables build
is_short_table = refl

pub byte_to_cp_bound : (b : ℕ) → b < 256 → byte_to_cp b < 324
unfolding is_short
byte_to_cp_bound b h = ground (arith, all_below_sound 256 is_short b is_short_table h)

-- The bytes that `utf8_put` writes, and how `utf8_get` classes and strips them.
abbrev lead : ℕ → ℕ → ℕ → ℕ → Bool
lead mark low mask x =
    let c = char (bit_or mark x) in c == mark + x && bit_and c low == x && bit_and c mask == mark

lead_2 : all_below 32 (lead 0xC0 0x1F 0xE0) ≡ true
unfolding all_below
lead_2 = refl

lead_3 : all_below 16 (λ x. lead 0xE0 0x0F 0xF0 x && bit_and (0xE0 + x) 0xE0 == 0xE0) ≡ true
unfolding all_below
lead_3 = refl

lead_4 :
    all_below 8 (λ x.
      lead 0xF0 0x07 0xF8 x && bit_and (0xF0 + x) 0xE0 == 0xE0 && bit_and (0xF0 + x) 0xF0 == 0xF0)
    ≡ true
unfolding all_below
lead_4 = refl

tail : all_below 64 (λ x. char (bit_or 0x80 x) == 0x80 + x && bit_and (0x80 + x) 0x3F == x) ≡ true
unfolding all_below
tail = refl

-- A byte of six bits.
pub six :
    (x : ℕ)
    → (char (bit_or 0x80 (bit_and x 0x3F)) ≡ 0x80 + x % 64)
      × (bit_and (0x80 + x % 64) 0x3F ≡ x % 64)
six x =
    (let t = all_below_sound 64 _ (x % 64) tail (omega arith) in
      rw (bit_and_ones 6 x) (ground arith))

pub two :
    (x : ℕ)
    → x < 32
    → (char (bit_or 0xC0 x) ≡ 0xC0 + x)
      × (bit_and (0xC0 + x) 0x1F ≡ x)
      × (bit_and (0xC0 + x) 0xE0 ≡ 0xC0)
two x h = let t = all_below_sound 32 _ x lead_2 h in ground arith

pub three :
    (x : ℕ)
    → x < 16
    → (char (bit_or 0xE0 x) ≡ 0xE0 + x)
      × (bit_and (0xE0 + x) 0x0F ≡ x)
      × (bit_and (0xE0 + x) 0xF0 ≡ 0xE0)
      × (bit_and (0xE0 + x) 0xE0 ≡ 0xE0)
three x h = let t = all_below_sound 16 _ x lead_3 h in ground arith

pub four :
    (x : ℕ)
    → x < 8
    → (char (bit_or 0xF0 x) ≡ 0xF0 + x)
      × (bit_and (0xF0 + x) 0x07 ≡ x)
      × (bit_and (0xF0 + x) 0xF8 ≡ 0xF0)
      × (bit_and (0xF0 + x) 0xE0 ≡ 0xE0)
      × (bit_and (0xF0 + x) 0xF0 ≡ 0xF0)
four x h = let t = all_below_sound 8 _ x lead_4 h in ground arith
