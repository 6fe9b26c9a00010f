-- ===== src/Node/Asking/Late.antt =====
-- include/gz/transport/detail/Node.hh: a response that comes after the time of its request.
use gz_transport.Common.{
  ◌≡◌, refl, ◌∙◌, Bool, false, ◌&&◌, none, [], ◌∷◌, if◌then◌else◌, Text, text_eq, text_eq_refl,
}
use gz_transport.HandlerStorage.{handler, remove_handler}
use gz_transport.HandlerStorage.Contents.{remove_handler-handler}
use gz_transport.Handlers.{Protobuf}
use gz_transport.Handlers.Request.{ReqHandler, req_handles}
use gz_transport.NodeShared.Services.{Services, progress_of}
use gz_transport.NodeShared.Services.Replies.{
  SrvResponse, read_response, on_srv_response, recv_srv_response,
}
use gz_transport.Node.Asking.{finish_request}

module _ {Msg : Type 0} ⦃pb : Protobuf Msg⦄ where
  on_srv_response-unknown :
      (r : SrvResponse) (s : Services Msg)
      → handler r.topic r.node_uuid r.req_uuid s.requests ≡ none
      → on_srv_response r s ≡ (s, [])
  unfolding on_srv_response
  on_srv_response-unknown r s e = rw (e, on_srv_response) refl

  -- When a request ends without a response, `Request` answers false, every other pending request
  -- stays, and a response to it that comes later changes nothing and calls nobody.
  pub finish_request-late :
      (parse : Text → Bool) (name from rep result : Text) (h : ReqHandler Msg) (s : Services Msg)
      → (progress_of h.h_uuid s.progress).rep_available ≡ false
      → let (s', answer, ok) = finish_request parse name h s in
        (answer ≡ false)
        × (recv_srv_response (from ∷ name ∷ h.n_uuid ∷ h.h_uuid ∷ rep ∷ result ∷ []) s' ≡ (s', []))
        × ((t n k : Text)
            → handler t n k s'.requests ≡ (
                if text_eq name t && (text_eq h.n_uuid n && text_eq h.h_uuid k)
                then none
                else handler t n k s.requests))
  unfolding finish_request recv_srv_response read_response
  finish_request-late parse name from rep result h s e =
      let removed =
        λ (t n k : Text). (remove_handler-handler name h.n_uuid h.h_uuid s.requests t n k).1 in
      let gone : handler name h.n_uuid h.h_uuid (remove_handler name h.n_uuid h.h_uuid s.requests).0
          ≡ none =
        removed name h.n_uuid h.h_uuid
        ∙ rw (text_eq_refl name, text_eq_refl h.n_uuid, text_eq_refl h.h_uuid) refl in
      rw e (refl, on_srv_response-unknown _ _ gone, removed)
