-- ===== src/Log/Iterator/Visits.antt =====
-- log/src/MsgIter.cc: which messages a loop over a batch visits, and that it ends.
use gz_transport.Common.{
  ℕ, zero, suc, ◌+◌, ◌<◌, ◌≡◌, refl, ◌∙◌, ap, true, false, Option, none, some, List, [], ◌∷◌, ◌++◌,
  append_assoc, length, length-append, arith,
}
use gz_transport.Log.Statement.{SqlStatement}
use gz_transport.Log.Iterator.{
  LogMessage, Held, no_message, holds, without_statement, MsgIter, end_iter, get_elem?,
  prepare_next_statement, step_statement, begin_iter, is_end, visit,
}

abbrev pub all_held : List LogMessage → List Held
all_held [] = []
all_held (r ∷ rows) = holds r ∷ all_held rows

abbrev pub last_or : Held → List LogMessage → Held
last_or m [] = m
last_or m (r ∷ rows) = last_or (holds r) rows

-- The visits of the later statements: before the rows of each, what is left of the last message.
abbrev pub later_visits : Held → List (List LogMessage) → List Held
later_visits m [] = []
later_visits m (rows ∷ others) =
    let left = without_statement m in
    left ∷ (all_held rows ++ later_visits (last_or left rows) others)

-- The visits from a message on, where the statement has these rows left.
abbrev pub visits : Held → List LogMessage → List (List LogMessage) → List Held
visits m rows others = all_held rows ++ later_visits (last_or m rows) others

get_elem?-append :
    {A : Type 0} (pre : List A) (q : A) (qs : List A)
    → get_elem? (pre ++ q ∷ qs) (length pre) ≡ some q
unfolding get_elem?
get_elem?-append [] q qs = refl
get_elem?-append (x ∷ pre) q qs = get_elem?-append pre q qs

get_elem?-over :
    {A : Type 0} (pre : List A) (q : A) → get_elem? (pre ++ q ∷ []) (length pre + 1) ≡ none
unfolding get_elem?
get_elem?-over [] q = refl
get_elem?-over (x ∷ pre) q = ground (arith, get_elem?-over pre q)

get_elem?-next :
    {A : Type 0} (pre : List A) (p q : A) (qs : List A)
    → get_elem? (pre ++ p ∷ q ∷ qs) (length pre + 1) ≡ some q
unfolding get_elem?
get_elem?-next [] p q qs = refl
get_elem?-next (x ∷ pre) p q qs = ground (arith, get_elem?-next pre p q qs)

module _ (query : SqlStatement → Option (List LogMessage)) where
  -- Each query gives its rows.
  abbrev pub Answers : List SqlStatement → List (List LogMessage) → Type 0
  Answers [] [] = Unit {0}
  Answers (q ∷ qs) (rows ∷ others) = (query q ≡ some rows) × Answers qs others
  Answers _ _ = ⊥

  -- An iterator in the statement `p`, behind the statements `pre`.
  abbrev at_rows :
      List SqlStatement → SqlStatement → List SqlStatement → List LogMessage → Held → MsgIter
  at_rows pre p qs rows m = record {
    statements = pre ++ p ∷ qs;
    statement_index = length pre;
    statement = some rows;
    message = m;
  }

  step-row :
      (pre : List SqlStatement) (p : SqlStatement) (qs : List SqlStatement) (r : LogMessage)
      (rows : List LogMessage) (m : Held)
      → step_statement query (at_rows pre p qs (r ∷ rows) m) ≡ at_rows pre p qs rows (holds r)
  unfolding step_statement
  step-row pre p qs r rows m = refl

  step-last :
      (pre : List SqlStatement) (p : SqlStatement) (m : Held)
      → is_end query (step_statement query (at_rows pre p [] [] m)) ≡ true
  unfolding step_statement prepare_next_statement is_end
  step-last pre p m = rw (get_elem?-over pre p, step_statement, prepare_next_statement) refl

  step-next :
      (pre : List SqlStatement) (p q : SqlStatement) (qs : List SqlStatement)
      (rows : List LogMessage) (m : Held)
      → query q ≡ some rows
      → step_statement query (at_rows pre p (q ∷ qs) [] m)
        ≡ at_rows (pre ++ p ∷ []) q qs rows (without_statement m)
  unfolding step_statement prepare_next_statement
  step-next pre p q qs rows m e =
      rw (get_elem?-next pre p q qs, e, step_statement, prepare_next_statement)
        (ground (arith, append_assoc pre (p ∷ []) (q ∷ qs), length-append {0} pre (p ∷ [])))

  visit-end : (f : ℕ) (it : MsgIter) → is_end query it ≡ true → 0 < f → visit query f it ≡ some []
  unfolding visit
  visit-end zero it e h = absurd (omega arith)
  visit-end (suc f) it e h = rw (e, visit) refl

  -- One visit, and those of the iterator after it.
  visit-step :
      (f : ℕ) (it : MsgIter) (ms : List Held)
      → is_end query it ≡ false
      → visit query f (step_statement query it) ≡ some ms
      → visit query (suc f) it ≡ some (it.message ∷ ms)
  unfolding visit
  visit-step f it ms e h = rw (e, h, visit) refl

  step-visits :
      (f : ℕ) (pre : List SqlStatement) (p : SqlStatement) (qs : List SqlStatement)
      (others : List (List LogMessage)) (rows : List LogMessage) (m : Held)
      → Answers qs others
      → length (visits m rows others) < f
      → visit query f (step_statement query (at_rows pre p qs rows m)) ≡ some (visits m rows others)
  unfolding is_end step_statement
  step-visits f pre p [] [] [] m a h = visit-end f _ (step-last pre p m) h
  step-visits f pre p [] (next ∷ others) [] m a h = elim a [ ]
  step-visits f pre p (q ∷ qs) [] [] m a h = elim a [ ]
  step-visits zero pre p (q ∷ qs) (next ∷ others) [] m a h = absurd (omega arith)
  step-visits (suc f) pre p (q ∷ qs) (next ∷ others) [] m a h =
      let left = without_statement m in
      ap (visit query (suc f)) (step-next pre p q qs next m a.0)
      ∙ visit-step f (at_rows (pre ++ p ∷ []) q qs next left) (visits left next others) refl
          (step-visits f (pre ++ p ∷ []) q qs others next left a.1 (omega arith))
  step-visits zero pre p qs others (r ∷ rows) m a h = absurd (omega arith)
  step-visits (suc f) pre p qs others (r ∷ rows) m a h =
      visit-step f (at_rows pre p qs rows (holds r)) (visits (holds r) rows others) refl
        (step-visits f pre p qs others rows (holds r) a (omega arith))

  -- A loop over a batch of queries that can all be prepared ends, and visits the rows of the first
  -- query in order; then, for each later query, first the message of the turn before, of which the
  -- time is left only, its other pointers leading into the statement that is destroyed, or the null
  -- pointer if there was no message yet; and then the rows of the query in order. For the one query
  -- that the options give these are just its rows.
  pub visit-begin_iter :
      (f : ℕ) (q : SqlStatement) (qs : List SqlStatement) (rows : List LogMessage)
      (others : List (List LogMessage))
      → Answers (q ∷ qs) (rows ∷ others)
      → length (visits no_message rows others) < f
      → visit query f (begin_iter query (some (q ∷ qs))) ≡ some (visits no_message rows others)
  unfolding begin_iter prepare_next_statement get_elem?
  visit-begin_iter f q qs rows others a h =
      let first = record end_iter { statements = q ∷ qs } in
      let prepared : (prepare_next_statement query first).0 ≡ at_rows [] q qs rows no_message =
        rw (a.0, prepare_next_statement) refl in
      ap (λ o. visit query f (step_statement query o)) prepared
      ∙ step-visits f [] q qs others rows no_message a.1 h
