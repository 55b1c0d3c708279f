-- ===== src/Tokenizer/Tests.antt =====
-- The tokenizer at concrete searches.
use app_datasource_validator.Prelude.{◌≡◌, refl, ◌≢◌, [], ◌∷◌}
use app_datasource_validator.Text.{Text, codes, ascii_lower}
use app_datasource_validator.Tokenizer.{
  tokens, unbalanced_open, unbalanced_close, unterminated_quote, out_of_fuel, start,
  split_top_level, tokenize_pipeline,
}
use app_datasource_validator.Tokenizer.Termination.{Scans, split_top_level-Scans}
use app_datasource_validator.Tokenizer.Segments.{join_bars, join_bars-split}

tokenizer_program : Unit {0}
unfolding split_top_level tokenize_pipeline ascii_lower
tokenizer_program = tt

abbrev nested : Text
nested = codes "search a | Append [search b | join [collect c]] | head 1"

-- The commands of subsearches at every depth are found.
nested_commands :
    tokenize_pipeline ascii_lower nested
    ≡ tokens (codes "search" ∷ codes "append" ∷ codes "head" ∷ []) (
        codes "search"
        ∷ codes "append"
        ∷ codes "head"
        ∷ codes "search"
        ∷ codes "join"
        ∷ codes "collect"
        ∷ [])
unfolding tokenizer_program
nested_commands = refl

bar_in_quotes :
    tokenize_pipeline ascii_lower (codes "search \"a | collect\" | stats count")
    ≡ tokens (codes "search" ∷ codes "stats" ∷ []) (codes "search" ∷ codes "stats" ∷ [])
unfolding tokenizer_program
bar_in_quotes = refl

unclosed : tokenize_pipeline ascii_lower (codes "append [search b") ≡ unbalanced_open
unfolding tokenizer_program
unclosed = refl

unopened : tokenize_pipeline ascii_lower (codes "a ] b") ≡ unbalanced_close
unfolding tokenizer_program
unopened = refl

open_string : tokenize_pipeline ascii_lower (codes "a \"b") ≡ unterminated_quote
unfolding tokenizer_program
open_string = refl

-- A command that is written up to its bracket keeps the bracket in its name.
glued_bracket :
    tokenize_pipeline ascii_lower (codes "search a | map[search b]")
    ≡ tokens
        (codes "search" ∷ codes "map[search" ∷ [])
        (codes "search" ∷ codes "map[search" ∷ codes "search" ∷ [])
unfolding tokenizer_program
glued_bracket = refl

split_top_level-Scans_example :
    (split_top_level ascii_lower nested ≢ out_of_fuel)
    × Scans ascii_lower start nested (split_top_level ascii_lower nested)
split_top_level-Scans_example = split_top_level-Scans ascii_lower nested

join_bars-split_example : join_bars (codes "a [b|c] " ∷ codes " d" ∷ []) ≡ codes "a [b|c] | d"
unfolding tokenizer_program
join_bars-split_example =
    join_bars-split ascii_lower (codes "a [b|c] | d") (codes "a [b|c] " ∷ codes " d" ∷ [])
      (codes "b" ∷ codes "c" ∷ []) refl
