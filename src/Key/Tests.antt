-- ===== src/Key/Tests.antt =====
-- The key checks: runs, and the theorem at a key.
use kaka.Prelude.{◌≡◌, refl, true, false, [], ◌∷◌}
use kaka.Core.{memory_invalid_key}
use kaka.Key.{Checked, validate_memory, validate_memory-Spaces}
use kaka.Key.Blank.{is_blank}

-- A tab, a no-break space, an ideographic space.
blank_test : is_blank (9 ∷ 0xc2 ∷ 0xa0 ∷ 0xe3 ∷ 0x80 ∷ 0x80 ∷ []) ≡ true
unfolding is_blank
blank_test = refl

zero_width_test : is_blank (0xe2 ∷ 0x80 ∷ 0x8b ∷ []) ≡ false
unfolding is_blank
zero_width_test = refl

validate_memory-Spaces_example :
    Checked (32 ∷ 9 ∷ []) memory_invalid_key (validate_memory (32 ∷ 9 ∷ []))
validate_memory-Spaces_example = validate_memory-Spaces (32 ∷ 9 ∷ [])
