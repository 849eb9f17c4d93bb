-- ===== src/Packet/Flags.antt =====
-- The flags as bits of one byte.
use Prim.Native.Nat.{bit_and, bit_or}
use karmanet.Common.{
  ℕ, zero, suc, ◌-◌, ◌<◌, ◌≤◌, ◌≡◌, refl, inl, inr, Bool, true, false, not, ◌&&◌, ◌||◌, arith, ltb,
  leb, ◌==◌, Bool-cases,
}
use karmanet.Packet.{
  Packet, Flag, whohas_name, whohas_md5, query, next_chunk, superpeer, mask, is_set_flag, set_flag,
  unset_flag,
}

-- the test holds for the numbers up to `last`
holds_to : (ℕ → Bool) → (last : ℕ) → Bool
holds_to test zero = test 0
holds_to test (suc m) = holds_to test m && test (suc m)

holds_to_lem : (test : ℕ → Bool) (last b : ℕ) → b ≤ last → holds_to test last ≡ true → test b ≡ true
unfolding holds_to
holds_to_lem test zero b le h = let e : b ≡ 0 = omega arith in rw e h
holds_to_lem test (suc m) b le h = elim (Bool-cases (leb b m)) [
  | inl below ↦ holds_to_lem test m b (ground arith) (ground arith)
  | inr above ↦ let e : b ≡ suc m = ground arith in rw e (ground arith)
]

abbrev all_flags : (Flag → Bool) → Bool
all_flags p = p whohas_name && (p whohas_md5 && (p query && (p next_chunk && p superpeer)))

all_flags_sound : (p : Flag → Bool) (f : Flag) → all_flags p ≡ true → p f ≡ true
all_flags_sound p whohas_name h = ground arith
all_flags_sound p whohas_md5 h = ground arith
all_flags_sound p query h = ground arith
all_flags_sound p next_chunk h = ground arith
all_flags_sound p superpeer h = ground arith

-- a flag of a byte is set
abbrev pub has_flag : ℕ → Flag → Bool
has_flag x g = not (bit_and x (mask g) == 0)

same : Flag → Flag → Bool
same f g = mask f == mask g

bool_eq : Bool → Bool → Bool
bool_eq true b = b
bool_eq false b = not b

set_test : ℕ → Flag → Flag → Bool
unfolding same bool_eq
set_test x f g =
    bool_eq (has_flag (bit_or x (mask f)) g) (same f g || has_flag x g)
    && (bool_eq (has_flag (bit_and x (255 - mask f)) g) (not (same f g) && has_flag x g)
        && (ltb (bit_or x (mask f)) 256 && ltb (bit_and x (255 - mask f)) 256))

set_table : holds_to (λ x. all_flags (λ f. all_flags (λ g. set_test x f g))) 255 ≡ true
unfolding holds_to set_test
set_table = refl

set_test_holds : (x : ℕ) (f g : Flag) → x < 256 → set_test x f g ≡ true
set_test_holds x f g h =
    let test = λ (b : ℕ). all_flags (λ f. all_flags (λ g. set_test b f g)) in
    all_flags_sound (λ g. set_test x f g) g
      (all_flags_sound (λ f. all_flags (λ g. set_test x f g)) f
        (holds_to_lem test 255 x (omega arith) set_table))

four_parts :
    (a b c d : Bool) (m n : ℕ)
    → (bool_eq a b && (bool_eq c d && (ltb m 256 && ltb n 256))) ≡ true
    → (a ≡ b) × (c ≡ d) × (m < 256) × (n < 256)
unfolding bool_eq
four_parts a b c d m n h = ground arith

-- the outcome of `is_set_flag` as a truth value
abbrev pub is_set : Packet → Flag → Bool
is_set p g = not (is_set_flag p (mask g) == 0)

-- On a packet whose flag is a byte, `set_flag` sets the named flag and leaves every other one, and
-- `unset_flag` clears it and leaves every other one; both leave a byte.
pub is_set-set_flag :
    (p : Packet) (f g : Flag)
    → p.flag < 256
    → (is_set (set_flag p (mask f)) g ≡ ((mask f == mask g) || is_set p g))
      × (is_set (unset_flag p (mask f)) g ≡ (not (mask f == mask g) && is_set p g))
      × ((set_flag p (mask f)).flag < 256)
      × ((unset_flag p (mask f)).flag < 256)
unfolding is_set_flag set_flag unset_flag set_test
is_set-set_flag p f g h = four_parts _ _ _ _ _ _ (set_test_holds p.flag f g h)
