-- ===== src/Knowledge/Splitter/Pieces.antt =====
-- The loop of `_split_long_paragraph` in backend/app/knowledge/splitter.py.
use Prim.Native.Nat.{◌/◌, min}
use enterprise_ai_agent.Prelude.{
  ℕ, zero, suc, ◌≤◌, ◌<◌, ltb, ◌≡◌, refl, sym, ap, ◌∙◌, Bool, Option, none, some, List, [], ◌∷◌,
  ◌++◌, length, take, drop, length-take, take-append-drop, if◌then◌else◌, arith, Bool-cases,
  Option-cases, inl, inr, All,
}
use enterprise_ai_agent.Knowledge.Splitter.{
  Letters, starts_newline, starts_full_stop, starts_sentence_end, lstrip, rstrip, strip, rfind,
  later, break_at, cut, add_piece, pieces,
}

module _ {A : Type 0} (letters : Letters A) where
  -- The characters that are no white space, in their order.
  unfoldable pub solid : List A → List A
  solid [] = []
  solid (c ∷ text) = let rest = solid text in if letters.is_space c then rest else c ∷ rest

  unfoldable pub solid_all : List (List A) → List A
  solid_all [] = []
  solid_all (p ∷ parts) = solid p ++ solid_all parts

  pub solid-append : (xs ys : List A) → solid (xs ++ ys) ≡ solid xs ++ solid ys
  unfolding solid
  solid-append [] ys = refl
  solid-append (c ∷ xs) ys = ground (arith, solid-append xs ys)

  solid-lstrip : (text : List A) → solid (lstrip letters text) ≡ solid text
  unfolding solid lstrip
  solid-lstrip [] = refl
  solid-lstrip (c ∷ text) = ground (arith, solid-lstrip text)

  solid-rstrip : (text : List A) → solid (rstrip letters text) ≡ solid text
  unfolding solid rstrip
  solid-rstrip [] = refl
  solid-rstrip (c ∷ text) = ground (arith, solid-rstrip text)

  length-lstrip : (text : List A) → length (lstrip letters text) ≤ length text
  unfolding lstrip
  length-lstrip [] = omega arith
  length-lstrip (c ∷ text) = ground (arith, length-lstrip text)

  length-rstrip : (text : List A) → length (rstrip letters text) ≤ length text
  unfolding rstrip
  length-rstrip [] = omega arith
  length-rstrip (c ∷ text) = ground (arith, length-rstrip text)

  rfind-lt :
      (wanted : List A → Bool) (text : List A) (i : ℕ)
      → rfind letters wanted text ≡ some i
      → i < length text
  unfolding rfind
  rfind-lt wanted [] i e = cc
  rfind-lt wanted (c ∷ text) i e = elim (Option-cases (rfind letters wanted text)) [
    | inl f ↦ ground (arith, rw (f, rfind) at e)
    | inr (j, f) ↦ ground (arith, rw (f, rfind) at e, rfind-lt wanted text j f)
  ]

  later-lt :
      (i j : Option ℕ) (k n : ℕ)
      → later letters i j ≡ some k
      → ((x : ℕ) → i ≡ some x → x < n)
      → ((x : ℕ) → j ≡ some x → x < n)
      → k < n
  unfolding later
  later-lt none j k n e h g = g k e
  later-lt (some i) none k n e h g = h k e
  later-lt (some i) (some j) k n e h g = elim (Bool-cases (ltb i j)) [
    | inl f ↦ g k (rw (f, later) at e)
    | inr f ↦ h k (rw (f, later) at e)
  ]

  break_at-lt : (window : List A) (b : ℕ) → break_at letters window ≡ some b → b < length window
  unfolding break_at
  break_at-lt window b e =
      let newline = rfind letters (starts_newline letters) window in
      let full_stop = rfind letters (starts_full_stop letters) window in
      let sentence = rfind letters (starts_sentence_end letters) window in
      later-lt newline (later letters full_stop sentence) b (length window) e
        (rfind-lt (starts_newline letters) window)
        (λ x f.
          later-lt full_stop sentence x (length window) f
            (rfind-lt (starts_full_stop letters) window)
            (rfind-lt (starts_sentence_end letters) window))

  -- A step goes forward, and no further than `max_chunk_chars`.
  cut-bounds :
      (m : ℕ) (c : A) (rest : List A)
      → 1 ≤ m
      → (1 ≤ cut letters m (c ∷ rest)) × (cut letters m (c ∷ rest) ≤ m)
  unfolding cut
  cut-bounds m c rest h =
      let n = min m (length (c ∷ rest)) in
      let window = take n (c ∷ rest) in
      let short = length-take n (c ∷ rest) in
      elim (Bool-cases (ltb n (length (c ∷ rest)))) [
        | inr e ↦ rw (e, cut) (omega arith, omega arith)
        | inl e ↦ elim (Option-cases (break_at letters window)) [
          | inl f ↦ rw (e, f, cut) (omega arith, omega arith)
          | inr (b, f) ↦
              let lt = break_at-lt window b f in
              elim (Bool-cases (ltb (m / 4) b)) [
                | inl g ↦ rw (e, f, g, cut) (omega arith, omega (arith, lt, short))
                | inr g ↦ rw (e, f, g, cut) (omega arith, omega arith)
              ]
        ]
      ]

  -- The parts of a text: none is longer than `max_chunk_chars`, and together they have all characters
  -- but white space, in their order.
  pub record Parts (m : ℕ) (text : List A) (r : Option (List (List A))) : Type 0 where
    pub parts : List (List A)
    pub returns : r ≡ some parts
    pub short : All (λ p. length p ≤ m) parts
    pub complete : solid_all parts ≡ solid text

  add_piece-short :
      (m : ℕ) (p : List A) (parts : List (List A))
      → length p ≤ m
      → All (λ q. length q ≤ m) parts
      → All (λ q. length q ≤ m) (add_piece letters p parts)
  add_piece-short m [] parts h k = k
  add_piece-short m (c ∷ p) parts h k = (h, k)

  pub solid_all-add_piece :
      (p : List A) (parts : List (List A))
      → solid_all (add_piece letters p parts) ≡ solid p ++ solid_all parts
  unfolding solid_all solid
  solid_all-add_piece [] parts = refl
  solid_all-add_piece (c ∷ p) parts = refl

  length-drop : (n : ℕ) (xs : List A) → length (drop n xs) ≤ length xs
  length-drop zero xs = omega arith
  length-drop (suc n) [] = omega arith
  length-drop (suc n) (x ∷ xs) = omega (arith, length-drop n xs)

  length-drop-suc : (n : ℕ) (x : A) (xs : List A) → 1 ≤ n → length (drop n (x ∷ xs)) ≤ length xs
  length-drop-suc zero x xs h = absurd (omega arith)
  length-drop-suc (suc n) x xs h = length-drop n xs

  pub solid-strip : (text : List A) → solid (strip letters text) ≡ solid text
  unfolding strip
  solid-strip text = solid-rstrip (lstrip letters text) ∙ solid-lstrip text

  solid-take-drop :
      (n : ℕ) (text : List A)
      → solid (strip letters (take n text)) ++ solid (drop n text) ≡ solid text
  solid-take-drop n text =
      rw (solid-strip (take n text))
        (sym (solid-append (take n text) (drop n text)) ∙ ap solid (take-append-drop n text))

  length-strip : (text : List A) → length (strip letters text) ≤ length text
  unfolding strip
  length-strip text = omega (arith, length-rstrip (lstrip letters text), length-lstrip text)

  pub pieces-Parts :
      (fuel m : ℕ) (text : List A)
      → 1 ≤ m
      → length text ≤ fuel
      → Parts m text (pieces letters fuel m text)
  unfolding pieces solid_all solid
  pieces-Parts fuel m [] h k = record { parts = []; returns = refl; short = tt; complete = refl }
  pieces-Parts zero m (c ∷ text) h k = absurd (omega arith)
  pieces-Parts (suc fuel) m (c ∷ text) h k =
      let n = cut letters m (c ∷ text) in
      let (low, high) = cut-bounds m c text h in
      let rest =
        pieces-Parts fuel m (drop n (c ∷ text)) h (omega (arith, length-drop-suc n c text low)) in
      let window = take n (c ∷ text) in
      let piece = strip letters window in
      rw (rest.returns, pieces)
        (record {
          parts = _;
          returns = refl;
          short =
              add_piece-short m piece rest.parts
                (omega (arith, length-strip window, length-take n (c ∷ text), high)) rest.short;
          complete =
              solid_all-add_piece piece rest.parts
              ∙ rw rest.complete (solid-take-drop n (c ∷ text));
        })
