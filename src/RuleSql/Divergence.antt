-- ===== src/RuleSql/Divergence.antt =====
-- Where the bulk query and the evaluator differ.
use kick_channel_role.Prelude.{
  ℕ, ◌+◌, ◌*◌, ◌<◌, Bool, true, false, ◌≡◌, refl, List, [], Option, none, some, arith,
}
use kick_channel_role.Prelude.Int.{pos, negsuc, ◌-ℤ◌}
use kick_channel_role.Prelude.Text.{Text}
use kick_channel_role.Json.{Value, array, Items, to_list, as_array}
use kick_channel_role.Rule.Condition.{country_code, not_in}
use kick_channel_role.Rule.Facts.{DateTime}
use kick_channel_role.Relation.{JoinedRow, facts_of}
use kick_channel_role.Eval.{Regex, day_micros, num_days, string_match, evaluate_single}
use kick_channel_role.RuleSql.{Bind, texts, str_array, build_condition}
use kick_channel_role.RuleSql.Semantics.{floor_days, cond_truth, selected}

-- A `not_in` condition on the country whose list holds no text: for a member with no country the
-- bulk query keeps the row, and the evaluator refuses it.
pub not_in_without_text_differs :
    (re : Regex) (tilde : Text → Text → Option Bool) (params binds : List Bind) (now : DateTime)
    (row : JoinedRow) (xs : Items) (end : Option Value) (bind_offset : ℕ)
    → texts (to_list xs) ≡ []
    → row.ku.country_code ≡ none
    → (selected (
          cond_truth tilde params now row
            (build_condition
              (record {
                target = country_code;
                operator = not_in;
                value = array xs;
                value_end = end;
              })
              bind_offset
              binds).0)
        ≡ some true)
      × (evaluate_single re now
            (record { target = country_code; operator = not_in; value = array xs; value_end = end })
            (facts_of row)
          ≡ false)
unfolding build_condition cond_truth evaluate_single string_match facts_of str_array as_array
not_in_without_text_differs re tilde params binds now row xs end o no_text no_country =
    (rw no_text refl, rw no_country refl)

-- Of a moment in the future, by a span that is not a whole number of days, the query counts one day
-- less than the evaluator.
pub floor_days-future :
    (days micros : ℕ)
    → 0 < micros
    → micros < day_micros
    → (num_days (pos 0 -ℤ pos (days * day_micros + micros)) ≡ pos 0 -ℤ pos days)
      × (floor_days (pos 0 -ℤ pos (days * day_micros + micros)) ≡ negsuc days)
unfolding num_days floor_days ◌-ℤ◌
floor_days-future days micros some_micros below = (ground arith, ground arith)
