-- ===== src/Querylang/Parser/Grammar.antt =====
-- The grammar of querylang/query.y as data: a sentence, the tokens that it is written with, and
-- what it means, by recursion on the sentence and without a stack. The machine is compared with it.
use durandal.Prelude.{ℕ, ◌∷◌}
use durandal.Prelude.Str.{Str}

-- The text of a token is not empty.
pub record Text : Type 0 where
  pub first : ℕ
  pub rest : Str

-- The code and the text of a token.
abbrev pub Token : Type 0
Token = ℕ × Str

abbrev pub spell : Text → Str
spell t = t.first ∷ t.rest

abbrev pub name : Text → Token
name t = (57361, spell t)

abbrev pub quoted : Text → Token
quoted t = (57362, spell t)

abbrev pub number : Text → Token
number t = (57381, spell t)

pub data Words : Type 0 where
  last : Text → Words
  then_word : Text → Words → Words

pub data Term : Type 0 where
  like eq eq_number neq : Text → Text → Term
  has matches : Text → Term
  is_in is_not_in : Words → Text → Term
  paren : Term → Term

pub data Where : Type 0 where
  one not_term : Term → Where
  and_term or_term : Where → Term → Where

pub data Selector : Type 0 where
  tags : Words → Selector
  all distinct : Selector
  distinct_tag : Text → Selector

pub data AbsTime : Type 0 where
  with_unit : Text → Text → AbsTime
  seconds formatted : Text → AbsTime
  now : AbsTime

pub data RelTime : Type 0 where
  last_offset : Text → Text → RelTime
  then_offset : Text → Text → RelTime → RelTime

pub data TimeRef : Type 0 where
  at : AbsTime → TimeRef
  offset : AbsTime → RelTime → TimeRef

pub data Limits : Type 0 where
  unlimited : Limits
  limited stream_limited : Text → Limits
  both_limited : Text → Text → Limits

-- The limit and the unit at the end of a data clause.
pub data Tail : Type 0 where
  plain : Limits → Tail
  as_unit : Limits → Text → Tail

-- What stands before the range of a data clause in parentheses.
pub data Header : Type 0 where
  no_header : Header
  statistical statistics : Text → Header
  window : Text → Text → Header

pub data Data : Type 0 where
  in_paren : Header → TimeRef → TimeRef → Tail → Data
  in_bare : TimeRef → TimeRef → Tail → Data
  changed : Text → Text → Text → Data
  before after : TimeRef → Tail → Data

pub data Sentence : Type 0 where
  select : Selector → Sentence
  select_where : Selector → Where → Sentence
  select_data delete_data : Data → Where → Sentence
  delete_where : Where → Sentence
