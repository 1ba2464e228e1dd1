-- ===== src/Querylang/Parser/WhereActions.antt =====
-- The actions for where clauses and texts in querylang/query.go, by the numbers of the switch.
use durandal.Prelude.{true, List, [], ◌∷◌, ◌++◌}
use durandal.Prelude.Str.{Str, codes}
use durandal.Prelude.Dict
use durandal.Common.Value.{Value, Values, Fields}
use durandal.Querylang.Parser.Values.{
  SymType, str_of, dict_of, list_of, dollar, cleantagstring, trim_quotes,
}
use durandal.Querylang.Parser.Actions.{Action, keep, dict_with}

-- A List and a []common.Dict as values
unfoldable pub texts : List Str → Values
texts [] = Values.nil
texts (s ∷ l) = Values.cons (Value.str s) (texts l)

abbrev pub both : Fields → Fields → Value
both a b = Value.list (Values.cons (Value.dict a) (Values.cons (Value.dict b) Values.nil))

-- The loop of NOT: every value is put under $ne.
unfoldable pub negated : Fields → Fields
negated Fields.end = Fields.end
negated (Fields.field k v d) = Fields.field k (Value.dict (dict_with (codes "$ne") v)) (negated d)

abbrev pub regex_call : Str → Str
regex_call text = codes "JSON.stringify(this).match(new RegExp('" ++ (text ++ codes "'))")

-- {k: {op: v}}
abbrev pub nested : Str → Str → Value → Fields
nested k op v = dict_with k (Value.dict (dict_with op v))

-- 37, and 46 and 52: a dict of one of the values
unfoldable pub where_clause : Action
where_clause d m = keep (SymType.dict (dict_of (dollar d 2))) m

-- 38 to 46, whereTerm
unfoldable pub term_actions : List Action
unfolding where_clause texts
term_actions =
    (λ d m.
      keep
        (SymType.dict
          (nested (str_of (dollar d 1)) (codes "$regex") (Value.str (str_of (dollar d 3)))))
        m)
    ∷ (λ d m.
        keep (SymType.dict (dict_with (str_of (dollar d 1)) (Value.str (str_of (dollar d 3))))) m)
    ∷ (λ d m.
        keep (SymType.dict (dict_with (str_of (dollar d 1)) (Value.str (str_of (dollar d 3))))) m)
    ∷ (λ d m.
        keep
          (SymType.dict
            (nested (str_of (dollar d 1)) (codes "$neq") (Value.str (str_of (dollar d 3)))))
          m)
    ∷ (λ d m.
        keep (SymType.dict (nested (str_of (dollar d 2)) (codes "$exists") (Value.bool true))) m)
    ∷ (λ d m.
        keep
          (SymType.dict (dict_with (codes "$where") (Value.str (regex_call (str_of (dollar d 2))))))
          m)
    ∷ (λ d m.
        keep
          (SymType.dict (
            nested (str_of (dollar d 3)) (codes "$in") (Value.list (texts (list_of (dollar d 1))))))
          m)
    ∷ (λ d m.
        keep
          (SymType.dict (
            nested (str_of (dollar d 3)) (codes "$not")
              (Value.dict (dict_with (codes "$in") (Value.list (texts (list_of (dollar d 1))))))))
          m)
    ∷ where_clause
    ∷ []

-- 47 and 48, qstring and lvalue
unfoldable pub text_actions : List Action
text_actions =
    (λ d m. keep (SymType.str (trim_quotes (str_of (dollar d 1)))) m)
    ∷ (λ d m.
        keep (SymType.str (cleantagstring (str_of (dollar d 1))))
          (record m { keys = Dict.put (str_of (dollar d 1)) tt m.keys }))
    ∷ []

-- 49 to 52, whereList
unfoldable pub list_actions : List Action
list_actions =
    (λ d m.
      keep
        (SymType.dict
          (dict_with (codes "$and") (both (dict_of (dollar d 1)) (dict_of (dollar d 3)))))
        m)
    ∷ (λ d m.
        keep
          (SymType.dict
            (dict_with (codes "$or") (both (dict_of (dollar d 1)) (dict_of (dollar d 3)))))
          m)
    ∷ (λ d m. keep (SymType.dict (negated (dict_of (dollar d 2)))) m)
    ∷ (λ d m. keep (SymType.dict (dict_of (dollar d 1))) m)
    ∷ []
