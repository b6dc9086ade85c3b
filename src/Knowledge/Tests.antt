-- ===== src/Knowledge/Tests.antt =====
-- The splitting of a text by backend/app/knowledge/splitter.py.
use enterprise_ai_agent.Prelude.{ℕ, ◌≡◌, List, [], ◌∷◌, ◌==◌, ◌||◌, arith}
use mathlib.Core.List.{append-nil}
use enterprise_ai_agent.Knowledge.Splitter.{Letters, split_long_paragraph, segment_text}
use enterprise_ai_agent.Knowledge.Splitter.Pieces.{Parts, solid, solid_all}
use enterprise_ai_agent.Knowledge.Splitter.Chunks.{split_long_paragraph-Parts, segment_text-Parts}

-- Characters as numbers: 0 a blank, 1 a new line, 2 and 3 the marks of a sentence's end.
abbrev letters : Letters ℕ
letters = record {
  is_space = λ c. (c == 0) || (c == 1);
  is_newline = λ c. c == 1;
  is_full_stop = λ c. c == 2;
  is_dot = λ c. c == 3;
  is_blank = λ c. c == 0;
}

abbrev text : List ℕ
text = 9 ∷ 3 ∷ 0 ∷ 8 ∷ 7 ∷ 1 ∷ 1 ∷ 6 ∷ 5 ∷ []

split_long_paragraph-Parts_example : Parts letters 4 text (split_long_paragraph letters 4 text)
split_long_paragraph-Parts_example = split_long_paragraph-Parts letters 4 text (omega arith)

-- A split that finds no empty line.
abbrev in_one : List ℕ → List (List ℕ)
in_one t = t ∷ []

in_one-keeps : (t : List ℕ) → solid_all letters (in_one t) ≡ solid letters t
unfolding solid_all
in_one-keeps t = append-nil (solid letters t)

segment_text-Parts_example : Parts letters 4 text (segment_text letters in_one in_one 4 text)
segment_text-Parts_example =
    segment_text-Parts letters in_one in_one 4 text (omega arith) in_one-keeps in_one-keeps
