-- ===== src/Key/Blank.antt =====
-- `strings.TrimSpace(s) == ""` on the bytes of `s`: what Go's library documents, white space as
-- Unicode defines it, in UTF-8. A byte that begins no white space ends the trimming.
use kaka.Prelude.{
  ℕ, Bool, true, false, List, [], ◌∷◌, ◌≡◌, refl, ◌∙◌, ◌↔◌, inl, inr, ◌&&◌, ◌||◌, ◌==◌, leb, arith,
  Bool-cases,
}

-- \t \n \v \f \r and the blank
abbrev ascii_space : ℕ → Bool
ascii_space b = (leb 9 b && leb b 13) || b == 32

-- U+0085 and U+00A0
abbrev space_two : ℕ → ℕ → Bool
space_two b c = b == 0xc2 && (c == 0x85 || c == 0xa0)

-- U+1680, U+2000 to U+200A, U+2028, U+2029, U+202F, U+205F, U+3000
abbrev space_three : ℕ → ℕ → ℕ → Bool
space_three b c d =
    (b == 0xe1 && (c == 0x9a && d == 0x80))
    || ((b == 0xe2
          && (c == 0x80 && ((leb 0x80 d && leb d 0x8a) || (d == 0xa8 || (d == 0xa9 || d == 0xaf)))))
        || ((b == 0xe2 && (c == 0x81 && d == 0x9f)) || (b == 0xe3 && (c == 0x80 && d == 0x80))))

unfoldable pub is_blank : List ℕ → Bool
is_blank [] = true
is_blank (b ∷ []) = ascii_space b
is_blank (b ∷ c ∷ []) = elim (ascii_space b) [ true ↦ is_blank (c ∷ []) | false ↦ space_two b c ]
is_blank (b ∷ c ∷ d ∷ s) = elim (ascii_space b) [
  | true ↦ is_blank (c ∷ d ∷ s)
  | false ↦ elim (space_two b c) [
    | true ↦ is_blank (d ∷ s)
    | false ↦ elim (space_three b c d) [ true ↦ is_blank s | false ↦ false ]
  ]
]

-- The texts made of white space alone.
pub data Spaces : List ℕ → Type 0 where
  end : Spaces []
  one : (b : ℕ) {s : List ℕ} → ascii_space b ≡ true → Spaces s → Spaces (b ∷ s)
  two : (b c : ℕ) {s : List ℕ} → space_two b c ≡ true → Spaces s → Spaces (b ∷ c ∷ s)
  three : (b c d : ℕ) {s : List ℕ} → space_three b c d ≡ true → Spaces s → Spaces (b ∷ c ∷ d ∷ s)

is_blank_sound : (s : List ℕ) → is_blank s ≡ true → Spaces s
unfolding is_blank
is_blank_sound [] h = end
is_blank_sound (b ∷ []) h = one b h end
is_blank_sound (b ∷ c ∷ []) h = elim (Bool-cases (ascii_space b)) [
  | inl e ↦ one b e (is_blank_sound (c ∷ []) (rw (e, is_blank) at h))
  | inr e ↦ two b c (ground arith) end
]
is_blank_sound (b ∷ c ∷ d ∷ s) h = elim (Bool-cases (ascii_space b)) [
  | inl e ↦ one b e (is_blank_sound (c ∷ d ∷ s) (rw (e, is_blank) at h))
  | inr e ↦ elim (Bool-cases (space_two b c)) [
    | inl f ↦ two b c f (is_blank_sound (d ∷ s) (rw (e, f, is_blank) at h))
    | inr f ↦ elim (Bool-cases (space_three b c d)) [
      | inl g ↦ three b c d g (is_blank_sound s (rw (e, f, g, is_blank) at h))
      | inr g ↦ absurd (ground arith)
    ]
  ]
]

is_blank_one : (b : ℕ) (s : List ℕ) → ascii_space b ≡ true → is_blank (b ∷ s) ≡ is_blank s
unfolding is_blank
is_blank_one b [] h = h
is_blank_one b (c ∷ []) h = rw (h, is_blank)
is_blank_one b (c ∷ d ∷ s) h = rw (h, is_blank)

is_blank_two : (b c : ℕ) (s : List ℕ) → space_two b c ≡ true → is_blank (b ∷ c ∷ s) ≡ is_blank s
unfolding is_blank
is_blank_two b c [] h = ground arith
is_blank_two b c (d ∷ s) h = let e : ascii_space b ≡ false = ground arith in rw (e, h, is_blank)

is_blank_three :
    (b c d : ℕ) (s : List ℕ) → space_three b c d ≡ true → is_blank (b ∷ c ∷ d ∷ s) ≡ is_blank s
unfolding is_blank
is_blank_three b c d s h =
    let e : ascii_space b ≡ false = ground arith in
    let f : space_two b c ≡ false = ground arith in rw (e, f, h, is_blank)

is_blank_complete : {s : List ℕ} → Spaces s → is_blank s ≡ true
unfolding is_blank
is_blank_complete end = refl
is_blank_complete (one b {s} h r) = is_blank_one b s h ∙ is_blank_complete r
is_blank_complete (two b c {s} h r) = is_blank_two b c s h ∙ is_blank_complete r
is_blank_complete (three b c d {s} h r) = is_blank_three b c d s h ∙ is_blank_complete r

pub is_blank-Spaces : (s : List ℕ) → (is_blank s ≡ true) ↔ Spaces s
is_blank-Spaces s = (is_blank_sound s, is_blank_complete)
