-- ===== src/Pmm/Bitmap.antt =====
-- The frame bitmap of kernel/kernel/pmm.c: eight frames to a byte, a bit set for a frame in use.
-- A frame beyond the bitmap is never passed.
use dfos.Base.{
  ℕ, zero, suc, ◌*◌, ◌-◌, ◌/◌, ◌%◌, ◌^◌, ◌≤◌, ◌<◌, Bool, true, false, ◌&&◌, ◌≡◌, ◌≢◌, refl, ap, ◌∙◌,
  List, [], ◌∷◌, bit_and, bit_or, not, ◌==◌, ltb, if◌then◌else◌, get_or, set, length, length-set,
  All, arith, get_or-set_self, get_or-set_ne,
}
use native.Mathlib.Decide.{ℕ_discrete}
use dfos.Base.Table.{holds_below, test_of_holds_below}

abbrev mask : ℕ → ℕ
mask frame = 2 ^ (frame % 8)

unfoldable pub bitmap_set : List ℕ → ℕ → List ℕ
bitmap_set bitmap frame = set bitmap (frame / 8) (bit_or (get_or bitmap (frame / 8) 0) (mask frame))

-- `(uint8_t) ~(1u << k)` is 255 - 2 ^ k.
unfoldable pub bitmap_clear : List ℕ → ℕ → List ℕ
bitmap_clear bitmap frame =
    set bitmap (frame / 8) (bit_and (get_or bitmap (frame / 8) 0) (255 - mask frame))

unfoldable pub bitmap_test : List ℕ → ℕ → Bool
bitmap_test bitmap frame = not (bit_and (get_or bitmap (frame / 8) 0) (mask frame) == 0)

-- The laws of one byte, at every byte and pair of positions.
abbrev bit_of : ℕ → ℕ → Bool
bit_of byte k = not (bit_and byte (2 ^ k) == 0)

abbrev same : Bool → Bool → Bool
same true b = b
same false b = not b

abbrev byte_laws : ℕ → ℕ → ℕ → Bool
byte_laws byte k j =
    same (bit_of (bit_or byte (2 ^ k)) j) (if k == j then true else bit_of byte j)
    && (same (bit_of (bit_and byte (255 - 2 ^ k)) j) (if k == j then false else bit_of byte j)
        && (ltb (bit_or byte (2 ^ k)) 256 && ltb (bit_and byte (255 - 2 ^ k)) 256))

byte_table :
    holds_below 256 (λ byte. holds_below 8 (λ k. holds_below 8 (λ j. byte_laws byte k j))) ≡ true
unfolding holds_below
byte_table = refl

byte_laws_hold : (byte k j : ℕ) → byte < 256 → k < 8 → j < 8 → byte_laws byte k j ≡ true
byte_laws_hold byte k j p q r =
    test_of_holds_below 8 _ j
      (test_of_holds_below 8 _ k (test_of_holds_below 256 _ byte byte_table p) q) r

same_eq : (a b : Bool) → same a b ≡ true → a ≡ b
same_eq true b h = ground arith
same_eq false b h = ground arith

-- A bitmap of bytes with room for `frames` frames.
abbrev pub IsBitmap : List ℕ → ℕ → Type 0
IsBitmap bitmap frames = All (λ byte. byte < 256) bitmap × (frames ≤ 8 * length bitmap)

get_or-All : (bytes : List ℕ) (i : ℕ) → All (λ byte. byte < 256) bytes → get_or bytes i 0 < 256
get_or-All [] i h = omega arith
get_or-All (b ∷ bytes) zero h = h.0
get_or-All (b ∷ bytes) (suc i) h = get_or-All bytes i h.1

set-All :
    (bytes : List ℕ) (i v : ℕ)
    → All (λ byte. byte < 256) bytes
    → v < 256
    → All (λ byte. byte < 256) (set bytes i v)
set-All [] i v h p = tt
set-All (b ∷ bytes) zero v h p = (p, h.1)
set-All (b ∷ bytes) (suc i) v h p = (h.0, set-All bytes i v h.1 p)

and_true : (a b : Bool) → (a && b) ≡ true → (a ≡ true) × (b ≡ true)
and_true a b h = ground arith

laws_of :
    (byte k j : ℕ)
    → byte_laws byte k j ≡ true
    → (bit_of (bit_or byte (2 ^ k)) j ≡ (if k == j then true else bit_of byte j))
      × (bit_of (bit_and byte (255 - 2 ^ k)) j ≡ (if k == j then false else bit_of byte j))
laws_of byte k j h =
    let (or_law, rest) =
      and_true (same (bit_of (bit_or byte (2 ^ k)) j) (if k == j then true else bit_of byte j)) _
        h in
    let (and_law, _) =
      and_true
        (same (bit_of (bit_and byte (255 - 2 ^ k)) j) (if k == j then false else bit_of byte j)) _
        rest in
    (same_eq _ _ or_law, same_eq _ _ and_law)

module _ (bitmap : List ℕ) (frames frame : ℕ) (b : IsBitmap bitmap frames)
    (h : frame < frames) where
  pub bitmap_set-IsBitmap : IsBitmap (bitmap_set bitmap frame) frames
  unfolding bitmap_set
  bitmap_set-IsBitmap = (
    set-All bitmap (frame / 8) _ b.0 (
        ground (
          arith,
          byte_laws_hold (get_or bitmap (frame / 8) 0) (frame % 8) 0
              (get_or-All bitmap (frame / 8) b.0) (omega arith) (omega arith),
        )),
    omega (
      arith,
      b.1,
      length-set bitmap (frame / 8) (bit_or (get_or bitmap (frame / 8) 0) (mask frame)),
    ),
  )

  pub bitmap_clear-IsBitmap : IsBitmap (bitmap_clear bitmap frame) frames
  unfolding bitmap_clear
  bitmap_clear-IsBitmap = (
    set-All bitmap (frame / 8) _ b.0 (
        ground (
          arith,
          byte_laws_hold (get_or bitmap (frame / 8) 0) (frame % 8) 0
              (get_or-All bitmap (frame / 8) b.0) (omega arith) (omega arith),
        )),
    omega (
      arith,
      b.1,
      length-set bitmap (frame / 8) (bit_and (get_or bitmap (frame / 8) 0) (255 - mask frame)),
    ),
  )

  law :
      (j : ℕ)
      → j < 8
      → let byte = get_or bitmap (frame / 8) 0 in
        let k = frame % 8 in
        (bit_of (bit_or byte (2 ^ k)) j ≡ (if k == j then true else bit_of byte j))
        × (bit_of (bit_and byte (255 - 2 ^ k)) j ≡ (if k == j then false else bit_of byte j))
  law j p = laws_of (get_or bitmap (frame / 8) 0) (frame % 8) j (
      byte_laws_hold (get_or bitmap (frame / 8) 0) (frame % 8) j (get_or-All bitmap (frame / 8) b.0)
        (omega arith) p)

  same_test : (other : ℕ) → frame / 8 ≡ other / 8 → (frame % 8 == other % 8) ≡ (frame == other)
  same_test other e = ground arith

  other_test : (other : ℕ) → frame / 8 ≢ other / 8 → (frame == other) ≡ false
  other_test other e = ground arith

  -- Setting a bit changes that bit alone.
  pub bitmap_test-set :
      (other : ℕ)
      → bitmap_test (bitmap_set bitmap frame) other
        ≡ (if frame == other then true else bitmap_test bitmap other)
  unfolding bitmap_set bitmap_test
  bitmap_test-set other = elim (ℕ_discrete (frame / 8) (other / 8)) [
    | yes e ↦
        rw
          (
            ← e,
            get_or-set_self bitmap (frame / 8) (bit_or (get_or bitmap (frame / 8) 0) (mask frame)) 0
                (omega (arith, b.1)),
          )
          ((law (other % 8) (omega arith)).0
            ∙ ap (λ t. if t then true else bit_of (get_or bitmap (frame / 8) 0) (other % 8))
                (same_test other e))
    | no e ↦
        rw
          (
            get_or-set_ne bitmap (frame / 8) (other / 8)
                (bit_or (get_or bitmap (frame / 8) 0) (mask frame)) 0 e,
            other_test other e,
          )
          refl
  ]

  -- So does clearing one.
  pub bitmap_test-clear :
      (other : ℕ)
      → bitmap_test (bitmap_clear bitmap frame) other
        ≡ (if frame == other then false else bitmap_test bitmap other)
  unfolding bitmap_clear bitmap_test
  bitmap_test-clear other = elim (ℕ_discrete (frame / 8) (other / 8)) [
    | yes e ↦
        rw
          (
            ← e,
            get_or-set_self bitmap (frame / 8)
                (bit_and (get_or bitmap (frame / 8) 0) (255 - mask frame)) 0 (omega (arith, b.1)),
          )
          ((law (other % 8) (omega arith)).1
            ∙ ap (λ t. if t then false else bit_of (get_or bitmap (frame / 8) 0) (other % 8))
                (same_test other e))
    | no e ↦
        rw
          (
            get_or-set_ne bitmap (frame / 8) (other / 8)
                (bit_and (get_or bitmap (frame / 8) 0) (255 - mask frame)) 0 e,
            other_test other e,
          )
          refl
  ]
