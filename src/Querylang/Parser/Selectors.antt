-- ===== src/Querylang/Parser/Selectors.antt =====
-- The runs of the parser of querylang/query.go over the selector of a query.
use durandal.Prelude.{refl, Bool, true, false, Option, none, some, List, [], ◌∷◌}
use durandal.Prelude.Int.{ℤ, pos}
use durandal.Prelude.Str.{Str}
use durandal.Querylang.Parser.Lexer.{Scanned, Meaning}
use durandal.Querylang.Parser.Values.{SymType, Clock}
use durandal.Querylang.Parser.Machine.{Slot, Machine, step, run}
use durandal.Querylang.Parser.Runs.{Memory, ahead, to_come, parser, Reads, reads, Reads-Reads}
use durandal.Querylang.Parser.Actions.{set_distinct}
use durandal.Querylang.Parser.Grammar.{
  Text, Token, name, Words, last, then_word, Selector, tags, all, distinct, distinct_tag,
}
use durandal.Querylang.Parser.Spelling.{words, selector, comma_token, where_token, semicolon_token}
use durandal.Querylang.Parser.Sense.{
  set_contents, key, note_key, tag_names, note_keys, selected, selector_sense,
}

-- What may follow a selector, and its number.
pub data Follow : Type 0 where
  where_next semicolon_next : Follow

abbrev pub follow_token : Follow → Token
follow_token where_next = where_token
follow_token semicolon_next = semicolon_token

abbrev pub follow_number : Follow → ℤ
follow_number where_next = pos 12
follow_number semicolon_next = pos 40

-- The states in which a tag is expected, and the states behind the list of tags.
data Tag : Type 0 where
  first_tag later_tag : Tag

abbrev tag_state : Tag → ℤ
tag_state first_tag = pos 2
tag_state later_tag = pos 30

abbrev behind_tags : Tag → ℤ
behind_tags first_tag = pos 6
behind_tags later_tag = pos 57

-- Whether the token behind the selector has been read when the selector is reduced.
abbrev pub peeks : Selector → Bool
peeks (tags ws) = true
peeks all = false
peeks distinct = true
peeks (distinct_tag k) = false

module _ (clock : Clock) (at_end : Scanned) (shown : List Token → Str) where
  abbrev at_state : List Slot → ℤ → SymType → Option ℤ → List Token → Memory → Meaning → Machine
  at_state = parser at_end shown

  last_tag :
      (p : Tag) (f : Follow) (k : Text) (stack : List Slot) (v : SymType) (rest : List Token)
      (memory : Memory) (m : Meaning)
      → Reads clock at_end shown
          (at_state stack (tag_state p) v none (name k ∷ follow_token f ∷ rest) memory m)
          ((tag_state p, v) ∷ stack)
          (behind_tags p)
          (SymType.list (key k ∷ []))
          (some (follow_number f))
          rest
          (note_key k m)
  unfolding run step
  last_tag first_tag where_next k stack v rest memory m = reads (_, _, _) 3 refl
  last_tag first_tag semicolon_next k stack v rest memory m = reads (_, _, _) 3 refl
  last_tag _ where_next k stack v rest memory m = reads (_, _, _) 3 refl
  last_tag _ semicolon_next k stack v rest memory m = reads (_, _, _) 3 refl

  shift_tag :
      (p : Tag) (k : Text) (stack : List Slot) (v : SymType) (ts : List Token) (memory : Memory)
      (m : Meaning)
      → Reads clock at_end shown
          (at_state stack (tag_state p) v none (name k ∷ comma_token ∷ ts) memory m)
          ((pos 14, SymType.str (key k)) ∷ (tag_state p, v) ∷ stack)
          (pos 30)
          (SymType.str (comma_token.1))
          none
          ts
          (note_key k m)
  unfolding run step
  shift_tag first_tag k stack v ts memory m = reads (_, _, _) 3 refl
  shift_tag later_tag k stack v ts memory m = reads (_, _, _) 3 refl

  reduce_tags :
      (p : Tag) (number : ℤ) (k : Str) (ks : List Str) (stack : List Slot) (v w : SymType)
      (rest : List Token) (memory : Memory) (m : Meaning)
      → Reads clock at_end shown
          (at_state
            ((pos 30, w) ∷ (pos 14, SymType.str k) ∷ (tag_state p, v) ∷ stack)
            (pos 57)
            (SymType.list ks)
            (some number)
            rest
            memory
            m)
          ((tag_state p, v) ∷ stack)
          (behind_tags p)
          (SymType.list (k ∷ ks))
          (some number)
          rest
          m
  unfolding run step
  reduce_tags first_tag number k ks stack v w rest memory m = reads (_, _, _) 1 refl
  reduce_tags later_tag number k ks stack v w rest memory m = reads (_, _, _) 1 refl

  tags_lem :
      (p : Tag) (f : Follow) (ws : Words) (stack : List Slot) (v : SymType) (rest : List Token)
      (memory : Memory) (m : Meaning)
      → Reads clock at_end shown
          (at_state stack (tag_state p) v none (words name ws (follow_token f ∷ rest)) memory m)
          ((tag_state p, v) ∷ stack)
          (behind_tags p)
          (SymType.list (tag_names ws))
          (some (follow_number f))
          rest
          (note_keys ws m)
  tags_lem p f (last k) stack v rest memory m = last_tag p f k stack v rest memory m
  tags_lem p f (then_word k ks) stack v rest memory m =
      Reads-Reads clock at_end shown
        (Reads-Reads clock at_end shown
          (shift_tag p k stack v (words name ks (follow_token f ∷ rest)) memory m)
          (λ memory'.
            tags_lem later_tag f ks ((pos 14, SymType.str (key k)) ∷ (tag_state p, v) ∷ stack)
              (SymType.str (comma_token.1)) rest memory' (note_key k m)))
        (λ memory'.
          reduce_tags p (follow_number f) (key k) (tag_names ks) stack v _ rest memory'
            (note_keys ks (note_key k m)))

  reduce_selector :
      (number : ℤ) (ks : List Str) (stack : List Slot) (v : SymType) (rest : List Token)
      (memory : Memory) (m : Meaning)
      → Reads clock at_end shown
          (at_state ((pos 2, v) ∷ stack) (pos 6) (SymType.list ks) (some number) rest memory m)
          ((pos 2, v) ∷ stack)
          (pos 4)
          (SymType.list ks)
          (some number)
          rest
          (set_contents ks m)
  unfolding run step
  reduce_selector number ks stack v rest memory m = reads (_, _, _) 1 refl

  module _ (stack : List Slot) (v : SymType) (rest : List Token) (memory : Memory)
      (m : Meaning) where
    all_lem :
        (f : Follow)
        → Reads clock at_end shown
            (at_state stack (pos 2) v none (selector all (follow_token f ∷ rest)) memory m)
            ((pos 2, v) ∷ stack)
            (pos 4)
            (SymType.list [])
            none
            (follow_token f ∷ rest)
            m
    unfolding run step
    all_lem f = reads (_, _, _) 2 refl

    distinct_lem :
        (f : Follow)
        → Reads clock at_end shown
            (at_state stack (pos 2) v none (selector distinct (follow_token f ∷ rest)) memory m)
            ((pos 2, v) ∷ stack)
            (pos 4)
            (SymType.list [])
            (some (follow_number f))
            rest
            (set_distinct m)
    unfolding run step
    distinct_lem where_next = reads (_, _, _) 2 refl
    distinct_lem semicolon_next = reads (_, _, _) 2 refl

    distinct_tag_lem :
        (f : Follow) (k : Text)
        → Reads clock at_end shown
            (at_state stack
              (pos 2)
              v
              none
              (selector (distinct_tag k) (follow_token f ∷ rest))
              memory
              m)
            ((pos 2, v) ∷ stack)
            (pos 4)
            (SymType.list (key k ∷ []))
            none
            (follow_token f ∷ rest)
            (set_distinct (note_key k m))
    unfolding run step
    distinct_tag_lem f k = reads (_, _, _) 4 refl

  pub selector_lem :
      (s : Selector) (f : Follow) (stack : List Slot) (v : SymType) (rest : List Token)
      (memory : Memory) (m : Meaning)
      → Reads clock at_end shown
          (at_state stack (pos 2) v none (selector s (follow_token f ∷ rest)) memory m)
          ((pos 2, v) ∷ stack)
          (pos 4)
          (SymType.list (selected s))
          (ahead (peeks s) (follow_number f))
          (to_come (peeks s) (follow_token f) rest)
          (selector_sense s m)
  selector_lem (tags ws) f stack v rest memory m =
      Reads-Reads clock at_end shown (tags_lem first_tag f ws stack v rest memory m) (λ memory'.
        reduce_selector (follow_number f) (tag_names ws) stack v rest memory' (note_keys ws m))
  selector_lem all f stack v rest memory m = all_lem stack v rest memory m f
  selector_lem distinct f stack v rest memory m = distinct_lem stack v rest memory m f
  selector_lem (distinct_tag k) f stack v rest memory m = distinct_tag_lem stack v rest memory m f k
