-- ===== src/Examples/PipelineExamples.antt =====
-- The pipeline `3,4{5 6=1,7}`, where the text 1 is "true" and 7 is a string.
use xdsl.Prelude.{ℕ, ◌≡◌, refl, true, false, List, [], ◌∷◌, arith}
use xdsl.Prelude.Dict.{insert}
use xdsl.Prelude.Int.{pos}
use xdsl.Result.{ok}
use xdsl.Pipeline.{
  Token, ident, PipelinePassSpec, boolean, string, Literals, element_of, parse_pipeline,
}
use xdsl.Pipeline.Layout.{layout, ReadsPasses, parse_pipeline-layout}

-- Literals whose text is read as its own number.
abbrev pub numbers : Literals ℕ
numbers = record {
  has_dot = λ _. false;
  int_of = λ t. pos t;
  float_of = λ t. t;
  literal_eval = λ t. t;
}

abbrev written : List (ℕ × List (ℕ × List Token))
written = (3, []) ∷ (4, (5, []) ∷ (6, ident 1 ∷ ident 7 ∷ []) ∷ []) ∷ []

abbrev specs : List (PipelinePassSpec ℕ)
specs =
    record { name = 3; args = [] }
    ∷ record { name = 4; args = (5, []) ∷ (6, boolean true ∷ string 7 ∷ []) ∷ [] }
    ∷ []

written-Reads : ReadsPasses numbers 3 written specs
unfolding element_of insert
written-Reads = (
  refl,
  ([], tt, refl),
  omega arith,
  (
    refl,
    (
      (5, []) ∷ (6, boolean true ∷ string 7 ∷ []) ∷ [],
      (refl, tt, (refl, (refl, (refl, tt)), tt)),
      refl,
    ),
    omega arith,
    tt,
  ),
)

parse_pipeline-layout_example : parse_pipeline numbers 3 3 (layout written) ≡ ok specs
parse_pipeline-layout_example =
    parse_pipeline-layout numbers 3 3 written specs written-Reads (omega arith)
