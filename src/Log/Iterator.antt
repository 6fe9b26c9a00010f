-- ===== src/Log/Iterator.antt =====
-- log/src/MsgIter.cc and log/src/Batch.cc: the iterator over the messages that queries give.
pub mod Visits
use gz_transport.Common.{
  ℕ, zero, suc, ◌+◌, Bool, true, false, not, Option, none, some, List, [], ◌∷◌, is_some, Text,
}
use gz_transport.Common.Int.{ℤ}
use gz_transport.Log.Statement.{SqlStatement}

-- `Message`
pub record LogMessage : Type 0 where
  pub time_received : ℤ
  pub content : Text
  pub type : Text
  pub topic : Text

-- What the pointer to the message leads to: nothing, a message, or one whose contents, type and topic
-- stood in a statement that is no more: it only has its time, and reading the others is undefined.
pub data Held : Type 0 where
  no_message : Held
  holds : LogMessage → Held
  dangling : ℤ → Held

-- A message has pointers into the memory of the statement: what is left when that is destroyed.
abbrev pub without_statement : Held → Held
without_statement no_message = no_message
without_statement (holds m) = dangling m.time_received
without_statement (dangling t) = dangling t

-- The state of an iterator. A statement that is prepared is given by the rows that it has not given
-- yet; the null pointer to a statement is none.
pub record MsgIter : Type 0 where
  pub statements : List SqlStatement
  pub statement_index : ℕ
  pub statement : Option (List LogMessage)
  pub message : Held

abbrev pub end_iter : MsgIter
end_iter = record { statements = []; statement_index = 0; statement = none; message = no_message }

unfoldable pub get_elem? : {A : Type 0} → List A → ℕ → Option A
get_elem? [] i = none
get_elem? (x ∷ xs) zero = some x
get_elem? (x ∷ xs) (suc i) = get_elem? xs i

-- `query` is the database: the rows of a query, or none if it cannot be prepared or a parameter
-- cannot be bound.
module _ (query : SqlStatement → Option (List LogMessage)) where
  -- `PrepareNextStatement`
  unfoldable pub prepare_next_statement : MsgIter → MsgIter × Bool
  unfolding get_elem?
  prepare_next_statement it = elim (get_elem? it.statements it.statement_index) [
    | none ↦ (it, false)
    | some q ↦ elim (query q) [
      | none ↦ (it, false)
      | some rows ↦ (record it { statement = some rows }, true)
    ]
  ]

  -- `StepStatement`
  unfoldable pub step_statement : MsgIter → MsgIter
  unfolding prepare_next_statement
  step_statement it = elim it.statement [
    | none ↦ it
    | some rows ↦ elim rows [
      | [] ↦
          (prepare_next_statement (record it {
            statement = none;
            statement_index = it.statement_index + 1;
            message = without_statement it.message;
          })).0
      | r ∷ rest ↦ record it { statement = some rest; message = holds r }
    ]
  ]

  -- `Batch::begin`, with the constructors of the iterator; a batch that has no data is none.
  unfoldable pub begin_iter : Option (List SqlStatement) → MsgIter
  unfolding step_statement prepare_next_statement
  begin_iter none = end_iter
  begin_iter (some qs) =
      step_statement (prepare_next_statement (record end_iter { statements = qs })).0

  -- The comparison with `Batch::end`.
  unfoldable pub is_end : MsgIter → Bool
  is_end it = not (is_some it.statement)

  -- What the pointer leads to at each turn of `for (const Message &m : batch)`, on fuel; none means
  -- that the fuel ran out.
  unfoldable pub visit : ℕ → MsgIter → Option (List Held)
  unfolding step_statement is_end
  visit zero it = none
  visit (suc f) it = elim (is_end it) [
    | true ↦ some []
    | false ↦ elim (visit f (step_statement it)) [ none ↦ none | some ms ↦ some (it.message ∷ ms) ]
  ]
