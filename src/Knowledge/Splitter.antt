-- ===== src/Knowledge/Splitter.antt =====
-- `DocumentSplitter` of backend/app/knowledge/splitter.py.
--
-- A text is a list of characters of a type `A`, of which the code tests four, and whether it is white
-- space. `split` and `splitlines` of Python are parameters. `paragraph[start:]` stands for `start`,
-- and `max_chunk_chars` is not negative.
pub mod Pieces
pub mod Chunks
use Prim.Native.Nat.{◌/◌, min}
use Prim.Native.String.{◌++◌ as str_append}
use enterprise_ai_agent.Prelude.{
  ℕ, zero, suc, ltb, leb, Bool, true, false, ◌&&◌, Option, none, some, List, [], ◌∷◌, ◌++◌, String,
  length, take, drop, if◌then◌else◌,
}
use enterprise_ai_agent.Prelude.Int.{pos}
use enterprise_ai_agent.Prelude.TextDict.{TextDict, insert}
use enterprise_ai_agent.Workflow.Node.{Value, str, int}

pub record Letters (A : Type 0) : Type 0 where
  pub is_space : A → Bool
  pub is_newline : A → Bool
  pub is_full_stop : A → Bool
  pub is_dot : A → Bool
  pub is_blank : A → Bool

module _ {A : Type 0} (letters : Letters A) where
  unfoldable pub lstrip : List A → List A
  lstrip [] = []
  lstrip (c ∷ text) = let rest = lstrip text in if letters.is_space c then rest else c ∷ text

  unfoldable pub rstrip : List A → List A
  rstrip [] = []
  rstrip (c ∷ text) = elim (rstrip text) [
    | [] ↦ if letters.is_space c then [] else c ∷ []
    | d ∷ rest ↦ c ∷ d ∷ rest
  ]

  unfoldable pub strip : List A → List A
  unfolding lstrip rstrip
  strip text = rstrip (lstrip text)

  abbrev pub starts_newline : List A → Bool
  starts_newline [] = false
  starts_newline (c ∷ text) = letters.is_newline c

  abbrev pub starts_full_stop : List A → Bool
  starts_full_stop [] = false
  starts_full_stop (c ∷ text) = letters.is_full_stop c

  abbrev pub starts_sentence_end : List A → Bool
  starts_sentence_end [] = false
  starts_sentence_end (c ∷ []) = false
  starts_sentence_end (c ∷ d ∷ text) = letters.is_dot c && letters.is_blank d

  -- `rfind`: the last position at which the text goes on as wanted; none stands for -1.
  unfoldable pub rfind : (wanted : List A → Bool) → List A → Option ℕ
  rfind wanted [] = none
  rfind wanted (c ∷ text) = elim (rfind wanted text) [
    | some i ↦ some (suc i)
    | none ↦ if wanted (c ∷ text) then some 0 else none
  ]

  unfoldable pub later : Option ℕ → Option ℕ → Option ℕ
  later none j = j
  later (some i) none = some i
  later (some i) (some j) = if ltb i j then some j else some i

  unfoldable pub break_at : List A → Option ℕ
  unfolding rfind later
  break_at window =
      later (rfind starts_newline window)
        (later (rfind starts_full_stop window) (rfind starts_sentence_end window))

  -- `end - start`
  unfoldable pub cut : (max_chunk_chars : ℕ) → List A → ℕ
  unfolding break_at
  cut max_chunk_chars rest =
      let n = min max_chunk_chars (length rest) in
      if ltb n (length rest)
      then elim (break_at (take n rest)) [
        | none ↦ n
        | some b ↦ if ltb (max_chunk_chars / 4) b then suc b else n
      ]
      else n

  abbrev pub add_piece : List A → List (List A) → List (List A)
  add_piece [] parts = parts
  add_piece (c ∷ piece) parts = (c ∷ piece) ∷ parts

  -- The loop, from `start` on; `none` if the fuel is spent.
  unfoldable pub pieces : (fuel : ℕ) → (max_chunk_chars : ℕ) → List A → Option (List (List A))
  unfolding cut strip
  pieces fuel max_chunk_chars [] = some []
  pieces zero max_chunk_chars (c ∷ rest) = none
  pieces (suc fuel) max_chunk_chars (c ∷ rest) =
      let n = cut max_chunk_chars (c ∷ rest) in
      elim (pieces fuel max_chunk_chars (drop n (c ∷ rest))) [
        | none ↦ none
        | some parts ↦ some (add_piece (strip (take n (c ∷ rest))) parts)
      ]

  -- `_split_long_paragraph`
  unfoldable pub split_long_paragraph : (max_chunk_chars : ℕ) → List A → Option (List (List A))
  unfolding pieces
  split_long_paragraph max_chunk_chars paragraph =
      if leb (length paragraph) max_chunk_chars
      then some (paragraph ∷ [])
      else elim (pieces (length paragraph) max_chunk_chars paragraph) [
        | none ↦ none
        | some parts ↦ elim parts [
          | [] ↦ some (take max_chunk_chars paragraph ∷ [])
          | p ∷ more ↦ some (p ∷ more)
        ]
      ]

  -- Each text stripped, without those of which nothing is left.
  unfoldable pub stripped : List (List A) → List (List A)
  unfolding strip
  stripped [] = []
  stripped (t ∷ texts) = add_piece (strip t) (stripped texts)

  unfoldable pub split_all : (max_chunk_chars : ℕ) → List (List A) → Option (List (List A))
  unfolding split_long_paragraph
  split_all max_chunk_chars [] = some []
  split_all max_chunk_chars (p ∷ paragraphs) = elim (split_long_paragraph max_chunk_chars p) [
    | none ↦ none
    | some parts ↦ elim (split_all max_chunk_chars paragraphs) [
      | none ↦ none
      | some segments ↦ some (parts ++ segments)
    ]
  ]

  -- `_segment_text`
  unfoldable pub segment_text :
      (split_blank_lines splitlines : List A → List (List A))
      → (max_chunk_chars : ℕ) → List A
      → Option (List (List A))
  unfolding stripped split_all
  segment_text split_blank_lines splitlines max_chunk_chars text =
      let paragraphs = stripped (split_blank_lines text) in
      split_all max_chunk_chars
        (if leb (length paragraphs) 1 then stripped (splitlines text) else paragraphs)

-- `Document` of document.py, whose id is the explicit one or made from the content by a digest.
pub record Document (A : Type 0) : Type 0 where
  pub content : List A
  pub metadata : TextDict Value

unfoldable pub chunk_metadata :
    (decimal : ℕ → String) → (parent_id : String) → ℕ → TextDict Value → TextDict Value
chunk_metadata decimal parent_id index metadata =
    insert "document_id" (str (str_append parent_id (str_append "#" (decimal index)))) (
      insert "splitter" (str "paragraph")
        (insert "parent_id" (str parent_id) (insert "chunk_index" (int (pos index)) metadata)))

unfoldable pub chunks_from :
    {A : Type 0}
    → (decimal : ℕ → String) → (parent_id : String) → ℕ
    → TextDict Value
    → List (List A)
    → List (Document A)
unfolding chunk_metadata
chunks_from decimal parent_id index metadata [] = []
chunks_from decimal parent_id index metadata (segment ∷ segments) =
    (record { content = segment; metadata = chunk_metadata decimal parent_id index metadata })
    ∷ chunks_from decimal parent_id (suc index) metadata segments

-- `split`
unfoldable pub split :
    {A : Type 0}
    → Letters A
    → (decimal : ℕ → String) → (document_id : Document A → String)
    → (split_blank_lines splitlines : List A → List (List A)) → (max_chunk_chars : ℕ) → Document A
    → Option (List (Document A))
unfolding segment_text chunks_from
split letters decimal document_id split_blank_lines splitlines max_chunk_chars document =
    elim (segment_text letters split_blank_lines splitlines max_chunk_chars document.content) [
      | none ↦ none
      | some segments ↦ elim segments [
        | [] ↦ some (document ∷ [])
        | s ∷ more ↦
            some (chunks_from decimal (document_id document) 0 document.metadata (s ∷ more))
      ]
    ]
