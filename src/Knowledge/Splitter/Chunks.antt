-- ===== src/Knowledge/Splitter/Chunks.antt =====
-- The parts of a document that backend/app/knowledge/splitter.py makes.
use enterprise_ai_agent.Prelude.{
  ℕ, ◌≤◌, ◌≡◌, refl, sym, ap, ◌∙◌, leb, Option, some, List, [], ◌∷◌, ◌++◌, length, take, drop,
  length-take, take-append-drop, arith, Bool-cases, List-cases, inl, inr, All,
}
use mathlib.Core.List.{append-nil, append_assoc}
use enterprise_ai_agent.Knowledge.Splitter.{
  Letters, strip, stripped, split_long_paragraph, split_all, segment_text,
}
use enterprise_ai_agent.Knowledge.Splitter.Pieces.{
  solid, solid_all, solid-append, solid-strip, solid_all-add_piece, Parts, pieces-Parts,
}

nil_of_append : {A : Type 0} (xs ys : List A) → xs ++ ys ≡ [] → xs ≡ []
nil_of_append [] ys e = refl
nil_of_append (x ∷ xs) ys e = cc

module _ {A : Type 0} (letters : Letters A) where
  -- A long paragraph is split, where `max_chunk_chars` is positive: the loop ends, no part is longer
  -- than that, and the parts have all characters of the paragraph but white space, in their order.
  pub split_long_paragraph-Parts :
      (m : ℕ) (paragraph : List A)
      → 1 ≤ m
      → Parts letters m paragraph (split_long_paragraph letters m paragraph)
  unfolding split_long_paragraph solid_all
  split_long_paragraph-Parts m paragraph h = elim (Bool-cases (leb (length paragraph) m)) [
    | inl e ↦
        rw (e, split_long_paragraph)
          (record {
            parts = paragraph ∷ [];
            returns = refl;
            short = (ground (arith, e), tt);
            complete = append-nil (solid letters paragraph);
          })
    | inr e ↦
        let p = pieces-Parts letters (length paragraph) m paragraph h (omega arith) in
        elim (List-cases p.parts) [
          | inl f ↦
              rw (e, p.returns, f, split_long_paragraph)
                (record {
                  parts = take m paragraph ∷ [];
                  returns = refl;
                  short = (length-take m paragraph, tt);
                  complete =
                      let nothing : solid letters paragraph ≡ [] = sym (rw f at p.complete) in
                      let split_up =
                        sym (solid-append letters (take m paragraph) (drop m paragraph))
                        ∙ ap (solid letters) (take-append-drop m paragraph) in
                      append-nil (solid letters (take m paragraph))
                      ∙ nil_of_append (solid letters (take m paragraph))
                          (solid letters (drop m paragraph)) (split_up ∙ nothing)
                      ∙ sym nothing;
                })
          | inr (x, xs, f) ↦
              rw (e, p.returns, f, split_long_paragraph)
                (record {
                  parts = x ∷ xs;
                  returns = refl;
                  short = rw f at p.short;
                  complete = rw f at p.complete;
                })
        ]
  ]

  -- The same of several texts.
  record AllParts (m : ℕ) (texts : List (List A)) (r : Option (List (List A))) : Type 0 where
    segments : List (List A)
    returns : r ≡ some segments
    short : All (λ p. length p ≤ m) segments
    complete : solid_all letters segments ≡ solid_all letters texts

  All-append {κ} :
      (P : List A → Type κ) (xs ys : List (List A)) → All P xs → All P ys → All P (xs ++ ys)
  All-append P [] ys h k = k
  All-append P (x ∷ xs) ys h k = (h.0, All-append P xs ys h.1 k)

  solid_all-append :
      (xs ys : List (List A))
      → solid_all letters (xs ++ ys) ≡ solid_all letters xs ++ solid_all letters ys
  unfolding solid_all
  solid_all-append [] ys = refl
  solid_all-append (x ∷ xs) ys =
      ap (λ l. solid letters x ++ l) (solid_all-append xs ys)
      ∙ sym (append_assoc (solid letters x) (solid_all letters xs) (solid_all letters ys))

  split_all-AllParts :
      (m : ℕ) (texts : List (List A)) → 1 ≤ m → AllParts m texts (split_all letters m texts)
  unfolding split_all solid_all
  split_all-AllParts m [] h = record { segments = []; returns = refl; short = tt; complete = refl }
  split_all-AllParts m (t ∷ texts) h =
      let p = split_long_paragraph-Parts m t h in
      let rest = split_all-AllParts m texts h in
      rw (p.returns, rest.returns, split_all)
        (record {
          segments = p.parts ++ rest.segments;
          returns = refl;
          short = All-append _ p.parts rest.segments p.short rest.short;
          complete = solid_all-append p.parts rest.segments ∙ rw (p.complete, rest.complete) refl;
        })

  solid_all-stripped :
      (texts : List (List A)) → solid_all letters (stripped letters texts) ≡ solid_all letters texts
  unfolding stripped solid_all
  solid_all-stripped [] = refl
  solid_all-stripped (t ∷ texts) =
      solid_all-add_piece letters (strip letters t) (stripped letters texts)
      ∙ rw (solid-strip letters t, solid_all-stripped texts) refl

  -- A text is split into segments none of which is longer than `max_chunk_chars`, where that is
  -- positive; together they have all characters of the text but white space, in their order. What is
  -- relied on: `text.split("\n\n")` and `text.splitlines()` lose nothing but white space.
  pub segment_text-Parts :
      (split_blank_lines splitlines : List A → List (List A)) (m : ℕ) (text : List A)
      → 1 ≤ m
      → ((t : List A) → solid_all letters (split_blank_lines t) ≡ solid letters t)
      → ((t : List A) → solid_all letters (splitlines t) ≡ solid letters t)
      → Parts letters m text (segment_text letters split_blank_lines splitlines m text)
  unfolding segment_text
  segment_text-Parts split_blank_lines splitlines m text h keeps lines_keep =
      let paragraphs = stripped letters (split_blank_lines text) in
      elim (Bool-cases (leb (length paragraphs) 1)) [
        | inl e ↦
            let p = split_all-AllParts m (stripped letters (splitlines text)) h in
            rw (e, segment_text)
              (record {
                parts = p.segments;
                returns = p.returns;
                short = p.short;
                complete = p.complete ∙ solid_all-stripped (splitlines text) ∙ lines_keep text;
              })
        | inr e ↦
            let p = split_all-AllParts m paragraphs h in
            rw (e, segment_text)
              (record {
                parts = p.segments;
                returns = p.returns;
                short = p.short;
                complete = p.complete ∙ solid_all-stripped (split_blank_lines text) ∙ keeps text;
              })
      ]
