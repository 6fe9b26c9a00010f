-- ===== src/Log/Store/Stored.antt =====
-- log/src/Log.cc: which messages the database holds, and under which topics.
use gz_transport.Common.{
  ◌≡◌, refl, ◌∙◌, ap, sym, subst, ◌⊎◌, inl, inr, true, false, Option, none, some, List, [], ◌∷◌,
  Text, arith, Bool-cases, Option-cases,
}
use gz_transport.Common.Int.{to_int32, ℤ, pos, negsuc, leb_ℤ}
use gz_transport.Log.Descriptor.{TopicKey, reset, topic_id}
use gz_transport.Log.Descriptor.Rows.{row_of}
use gz_transport.Log.Store.{
  Sqlite, Log, message_type_row, topic_row, log_descriptor, end_transaction_now,
  begin_transaction_if_not_in_one, end_transaction_if_enough_time_has_passed,
  time_for_new_transaction, insert_new_topic, insert_or_get_topic_id,
}
use gz_transport.Log.Store.Rows.{
  Logged, key_of, join_rows, SqliteLaws, IsNarrow, key_of-new, IsPlaced, IsPlaced-append,
  topic_id_lem, IsKeyed, IsKeyed-append,
}

module _ {Db : Type 0} ⦃sql : Sqlite Db⦄ (laws : SqliteLaws sql) where
  open laws use {rows, messages}

  -- The messages that the database holds, with their topics.
  abbrev pub logged : Db → List Logged
  logged db = join_rows (rows db) (messages db)

  -- The tables fit each other.
  abbrev pub IsFitting : Db → Type 0
  IsFitting db = IsKeyed (rows db) × IsPlaced (rows db) (messages db)

  -- The log has this database, and a descriptor that is not out of date is the one of its rows.
  abbrev pub Follows : Db → Log Db → Type 0
  Follows db l = (l.db ≡ some db) × (l.need_new_descriptor ≡ false → l.descriptor ≡ reset (rows db))

  abbrev pub Keeps : Db → Db → Type 0
  Keeps db db' = (rows db' ≡ rows db) × (messages db' ≡ messages db)

  pub Keeps-IsFitting :
      (db db' : Db) → Keeps db db' → IsFitting db → IsFitting db' × (logged db' ≡ logged db)
  Keeps-IsFitting db db' (same, same') f = rw (same, same') (f, refl)

  -- The start and the end of a transaction, where they are answered with true.
  pub begin_lem :
      (now : ℤ) (db : Db) (l : Log Db)
      → Follows db l
      → (begin_transaction_if_not_in_one now db l).1 ≡ true
      → (db' : Db) × (Keeps db db' × Follows db' (begin_transaction_if_not_in_one now db l).0)
  unfolding begin_transaction_if_not_in_one
  begin_lem now db l (has, known) begun = elim (Bool-cases l.in_transaction) [
    | inl e ↦ (db, ((refl, refl), rw (begin_transaction_if_not_in_one, e) (has, known)))
    | inr e ↦
        let ok : (sql.begin_transaction db).1 ≡ true = ground arith in
        let keeps = laws.begins db ok in
        let known' = λ (n : l.need_new_descriptor ≡ false). known n ∙ ap reset (sym keeps.0) in
        (
          (sql.begin_transaction db).0,
          (keeps, rw (begin_transaction_if_not_in_one, e, ok) (refl, known')),
        )
  ]

  pub end_lem :
      (now : ℤ) (db : Db) (l : Log Db)
      → Follows db l
      → (end_transaction_if_enough_time_has_passed now db l).1 ≡ true
      → (db' : Db) × (Keeps db db'
          × Follows db' (end_transaction_if_enough_time_has_passed now db l).0)
  unfolding end_transaction_if_enough_time_has_passed end_transaction_now
  end_lem now db l (has, known) ended = elim (Bool-cases (time_for_new_transaction now l)) [
    | inl e ↦
        let ok : (sql.end_transaction db).1 ≡ true = ground arith in
        let keeps = laws.ends db ok in
        let known' = λ (n : l.need_new_descriptor ≡ false). known n ∙ ap reset (sym keeps.0) in
        (
          (sql.end_transaction db).0,
          (
            keeps,
            rw (end_transaction_if_enough_time_has_passed, e, end_transaction_now, ok)
                (refl, known'),
          ),
        )
    | inr e ↦ (db, ((refl, refl), rw (end_transaction_if_enough_time_has_passed, e) (has, known)))
  ]

  log_descriptor_lem :
      (db : Db) (l : Log Db)
      → Follows db l
      → Follows db (log_descriptor l).0
        × (((log_descriptor l).1 ≡ none) ⊎ ((log_descriptor l).1 ≡ some (reset (rows db))))
  unfolding log_descriptor
  log_descriptor_lem db l (has, known) = elim (Bool-cases l.need_new_descriptor) [
    | inl e ↦ elim (Option-cases (sql.topic_rows db)) [
      | inl n ↦ rw (log_descriptor, has, e, n) ((has, known), inl refl)
      | inr (r, s) ↦
          let same = laws.topic_rows_rows db r s in
          rw (log_descriptor, has, e, s, same) ((has, λ n. refl), inr refl)
    ]
    | inr e ↦
        let kept : log_descriptor l ≡ (l, some l.descriptor) = ground arith in
        subst (λ r. Follows db r.0 × ((r.1 ≡ none) ⊎ (r.1 ≡ some (reset (rows db))))) (sym kept)
          ((has, known), inr (ap (λ d. some d) (known e)))
  ]

  -- What a call leaves that answers with the number of a topic's row: a log that follows its
  -- database, which holds the messages that it held.
  abbrev pub Found : Text → Text → Db → Log Db × ℤ → Type 0
  Found name type db r =
      leb_ℤ (pos 0) r.1 ≡ true
      → (db' : Db) × (IsFitting db'
          × ((logged db' ≡ logged db)
              × (Follows db' r.0
                  × ((key_of r.1 (rows db') ≡ some (record { topic = name; type = type }))
                      × (to_int32 r.1 ≡ r.1)))))

  unfound : (name type : Text) (db : Db) (l : Log Db) → Found name type db (l, negsuc 0)
  unfound name type db l h = absurd (ground arith)

  -- A topic that the descriptor knows.
  known_topic :
      (name type : Text) (db : Db)
      → IsFitting db
      → let id = topic_id name type (reset (rows db)) in
        leb_ℤ (pos 0) id ≡ true
        → (key_of id (rows db) ≡ some (record { topic = name; type = type })) × (to_int32 id ≡ id)
  known_topic name type db (keyed, placed) =
      let found = topic_id_lem name type (rows db) in
      elim (Option-cases (row_of name type (rows db) none)) [
        | inl n ↦ rw (found, n) (λ h. absurd (ground arith))
        | inr (id, e) ↦ rw (found, e) (λ h. keyed name type id e)
      ]

  module _ (narrow : IsNarrow sql) where
    -- The call that adds the row of a topic, after that of its type.
    topic_row_lem :
        (name type : Text) (db : Db) (l : Log Db) (answer : Option ℤ)
        → let db' = (sql.insert_type type db).0 in
          let db'' = (sql.insert_topic name type db').0 in
          IsFitting db
          → (sql.insert_type type db).1 ≡ true
          → (sql.insert_topic name type db').1 ≡ answer
          → l.db ≡ some db''
          → l.need_new_descriptor ≡ true
          → Found name type db (l, elim answer [ none ↦ negsuc 0 | some id ↦ id ])
    topic_row_lem name type db l none f typed none_ has stale h = unfound name type db l h
    topic_row_lem name type db l (some id) (keyed, placed) typed added has stale h =
        let db' = (sql.insert_type type db).0 in
        let db'' = (sql.insert_topic name type db').0 in
        let new : TopicKey × ℤ = (record { topic = name; type = type }, id) in
        let kept = laws.type_adds type db typed in
        let more = laws.topic_adds name type db id typed added in
        let same = laws.topic_messages name type db' id added ∙ kept.1 in
        let fits = narrow name type db' id added in
        let fresh : key_of id (rows db) ≡ none =
          ap (key_of id) (sym kept.0) ∙ laws.topic_fresh name type db' id added in
        let (placed', joined) = IsPlaced-append (rows db) (new ∷ []) (messages db) placed in
        (
          db'',
          (
            rw (more, same) (IsKeyed-append (rows db) name type id keyed fresh fits, placed'),
            (
              rw (more, same) joined,
              (
                (has, λ n. absurd (ground arith)),
                (rw more (key_of-new id (rows db) new.0 fresh), fits),
              ),
            ),
          ),
        )

    insert_new_topic_lem :
        (name type : Text) (db : Db) (l : Log Db)
        → IsFitting db
        → Found name type db (insert_new_topic name type db l)
    unfolding insert_new_topic
    insert_new_topic_lem name type db l f =
        let typed = sql.insert_type type db in
        let added = sql.insert_topic name type typed.0 in
        let stale = record l { need_new_descriptor = true } in
        let timeless = record stale { start_time = negsuc 0; end_time = negsuc 0 } in
        let failed = λ (k : Log Db). unfound name type db k in
        elim (Bool-cases (sql.prepares message_type_row db)) [
          | inr a ↦ rw (insert_new_topic, a) (failed stale)
          | inl a ↦ elim (Bool-cases (sql.prepares topic_row db)) [
            | inr b ↦ rw (insert_new_topic, a, b) (failed stale)
            | inl b ↦ elim (Bool-cases (sql.binds message_type_row db)) [
              | inr c ↦ rw (insert_new_topic, a, b, c) (failed timeless)
              | inl c ↦ elim (Bool-cases (sql.binds topic_row db)) [
                | inr d ↦ rw (insert_new_topic, a, b, c, d) (failed timeless)
                | inl d ↦ elim (Bool-cases typed.1) [
                  | inr e ↦
                      rw (insert_new_topic, a, b, c, d, e)
                        (failed (record timeless { db = some typed.0 }))
                  | inl e ↦
                      rw (insert_new_topic, a, b, c, d, e)
                        (topic_row_lem name type db (record timeless { db = some added.0 }) added.1
                          f e refl refl refl)
                ]
              ]
            ]
          ]
        ]

    pub insert_or_get_topic_id_lem :
        (name type : Text) (db : Db) (l : Log Db)
        → IsFitting db
        → Follows db l
        → Found name type db (insert_or_get_topic_id name type db l)
    unfolding insert_or_get_topic_id
    insert_or_get_topic_id_lem name type db l f follows =
        let l' = (log_descriptor l).0 in
        let (follows', got) = log_descriptor_lem db l follows in
        elim got [
          | inl n ↦ rw (insert_or_get_topic_id, n) (unfound name type db l')
          | inr s ↦
              let id = topic_id name type (reset (rows db)) in
              elim (Bool-cases (leb_ℤ (pos 0) id)) [
                | inl e ↦
                    rw (insert_or_get_topic_id, s, e)
                      (λ h. (db, (f, (refl, (follows', known_topic name type db f e)))))
                | inr e ↦ rw (insert_or_get_topic_id, s, e) (insert_new_topic_lem name type db l' f)
              ]
        ]
