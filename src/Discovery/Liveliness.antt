-- ===== src/Discovery/Liveliness.antt =====
-- src/Discovery.hh, the handlers of liveliness samples: `LivelinessMsgDataHandler` and
-- `LivelinessSrvDataHandler`. The class of a sample is zenoh's: its kind and its token are
-- arguments.
use gz_transport.Common.{
  ◌≡◌, refl, sym, ◌∙◌, true, false, not, ◌&&◌, none, some, List, [], ◌∷◌, ◌++◌, if◌then◌else◌, Text,
  bytes, text_eq, has_char,
}
use gz_transport.TopicStorage.{add_publisher, del_publisher_by_node}
use gz_transport.TopicUtils.Qualified.{decompose_fully_qualified_topic_iff}
use gz_transport.TopicUtils.Token.{
  Liveliness, decompose_message_token, decompose_service_token, create_message_token,
}
use gz_transport.TopicUtils.Token.RoundTrip.{Announces, announced, decompose-create_message_token}
use gz_transport.Publisher.{
  MessagePublisher, ServicePublisher, new_message_publisher, new_service_publisher,
  default_message_options, all,
}
use gz_transport.Discovery.{
  wire_publishes, Discovery, Effect, connected, registered, unregistered, call,
}
use gz_transport.Discovery.Instances.{message_wire, service_wire}

pub data SampleKind : Type 0 where
  put delete : SampleKind

-- The fully qualified name of a token.
unfoldable pub name_of : Liveliness → Text
name_of l = b'@' ∷ l.partition ++ (b'@' ∷ l.topic)

unfoldable pub live_message_pub : Text → Liveliness → Text → MessagePublisher
unfolding name_of
live_message_pub ctrl l type =
    new_message_publisher (name_of l) [] ctrl l.p_uuid l.n_uuid type default_message_options

unfoldable pub live_service_pub : Liveliness → Text → Text → ServicePublisher
unfolding name_of
live_service_pub l req rep = new_service_publisher (name_of l) [] [] l.p_uuid l.n_uuid req rep all

-- `LivelinessMsgDataHandler` behind the reading of the token.
unfoldable pub on_live_message :
    SampleKind
    → Liveliness
    → Text
    → Discovery MessagePublisher
    → Discovery MessagePublisher × List (Effect MessagePublisher)
unfolding live_message_pub
on_live_message kind l type d =
    let p = live_message_pub d.p_uuid l type in
    let is_publisher = text_eq l.entity_type (bytes "MP") in
    let is_subscriber = text_eq l.entity_type (bytes "MS") && not (text_eq d.p_uuid l.p_uuid) in
    elim kind [
      | put ↦
          let (info, added) = add_publisher p d.info in
          if is_publisher
          then (record d { info = info }, call (added && d.connection_cb) (connected p))
          else if is_subscriber
          then (
            record d { remote_subscribers = (add_publisher p d.remote_subscribers).0 },
            call d.registration_cb (registered p),
          )
          else (d, [])
      | delete ↦
          if is_publisher
          then (
            record d {
              info = (del_publisher_by_node p.base.topic p.base.p_uuid p.base.n_uuid d.info).0;
            },
            [],
          )
          else if is_subscriber
          then (
            record d {
              remote_subscribers =
                  (del_publisher_by_node p.base.topic p.base.p_uuid p.base.n_uuid
                    d.remote_subscribers).0;
            },
            call d.unregistration_cb (unregistered p),
          )
          else (d, [])
    ]

unfoldable pub live_message :
    SampleKind
    → Text
    → Discovery MessagePublisher
    → Discovery MessagePublisher × List (Effect MessagePublisher)
unfolding on_live_message
live_message kind token d = elim (decompose_message_token token) [
  | none ↦ (d, [])
  | some (l, type) ↦ on_live_message kind l type d
]

unfoldable pub live_service :
    SampleKind
    → Text
    → Discovery ServicePublisher
    → Discovery ServicePublisher × List (Effect ServicePublisher)
unfolding live_service_pub
live_service kind token d = elim (decompose_service_token token) [
  | none ↦ (d, [])
  | some (l, req, rep) ↦
      let p = live_service_pub l req rep in
      let is_server = text_eq l.entity_type (bytes "SS") in
      elim kind [
        | put ↦
            let (info, added) = add_publisher p d.info in
            if not is_server
            then (d, call d.connection_cb (connected p))
            else (record d { info = info }, call (added && d.connection_cb) (connected p))
        | delete ↦ (
          if is_server
              then record d {
                info = (del_publisher_by_node p.base.topic l.p_uuid l.n_uuid d.info).0;
              }
              else d,
          [],
        )
      ]
]

-- The record that a discovery makes for the token of a message publisher.
abbrev pub alive : Text → Text → Text → Text → Text → MessagePublisher
alive ctrl name p n type = new_message_publisher name [] ctrl p n type default_message_options

is_mp : text_eq (bytes "MP") (bytes "MP") ≡ true
unfolding text_eq
is_mp = refl

live_message_of :
    (kind : SampleKind) (token : Text) (l : Liveliness) (type : Text)
    (d : Discovery MessagePublisher)
    → decompose_message_token token ≡ some (l, type)
    → live_message kind token d ≡ on_live_message kind l type d
unfolding live_message
live_message_of kind token l type d h = rw (h, live_message)

announced_at :
    (name partition topic p n type : Text) (d : Discovery MessagePublisher)
    → b'@' ∷ partition ++ (b'@' ∷ topic) ≡ name
    → (on_live_message put (announced partition topic p n (bytes "MP") type) type d ≡ (
        let r = add_publisher (alive d.p_uuid name p n type) d.info in
        (
          record d { info = r.0 },
          call (r.1 && d.connection_cb) (connected (alive d.p_uuid name p n type)),
        )))
      × (on_live_message delete (announced partition topic p n (bytes "MP") type) type d
          ≡ (record d { info = (del_publisher_by_node name p n d.info).0 }, []))
unfolding on_live_message new_message_publisher
announced_at name partition topic p n type d e =
    (rw (is_mp, live_message_pub, e) refl, rw (is_mp, live_message_pub, e) refl)

-- A discovery that sees the token of a node for a qualified name with a partition and without a
-- '%', an entity type of a message publisher and a message type without a slash adds a publisher
-- of exactly that name, of the node's UUIDs and of the message type, and reports it if it is new;
-- when the token drops, the publishers of the node in that topic are deleted.
pub live_message-token :
    (name partition topic p n type : Text) (d : Discovery MessagePublisher)
    → Announces name partition topic p n (bytes "MP")
    → has_char b'/' type ≡ false
    → (live_message put (create_message_token name p n (bytes "MP") type) d ≡ (
        let r = add_publisher (alive d.p_uuid name p n type) d.info in
        (
          record d { info = r.0 },
          call (r.1 && d.connection_cb) (connected (alive d.p_uuid name p n type)),
        )))
      × (live_message delete (create_message_token name p n (bytes "MP") type) d
          ≡ (record d { info = (del_publisher_by_node name p n d.info).0 }, []))
live_message-token name partition topic p n type d a h =
    let (e, _, _) = (decompose_fully_qualified_topic_iff name partition topic).0 a.decomposed in
    let back = decompose-create_message_token name partition topic p n (bytes "MP") type a h in
    (
      live_message_of put (create_message_token name p n (bytes "MP") type)
            (announced partition topic p n (bytes "MP") type) type d back
          ∙ (announced_at name partition topic p n type d (sym e)).0,
      live_message_of delete (create_message_token name p n (bytes "MP") type)
            (announced partition topic p n (bytes "MP") type) type d back
          ∙ (announced_at name partition topic p n type d (sym e)).1,
    )
