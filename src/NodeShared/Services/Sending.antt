-- ===== src/NodeShared/Services/Sending.antt =====
-- src/NodeShared.cc, the services: what the loop of `SendPendingRemoteReqs` does to one request.
use gz_transport.Common.{
  ◌≡◌, refl, ◌∙◌, inl, inr, ◌⊎◌, true, false, some, List, [], ◌∷◌, ◌++◌, All, Text, text_eq,
  text_eq_refl, text_eq_iff, arith,
}
use gz_transport.Common.Within.{In, Within-self, Within-front, Within-back}
use gz_transport.Handlers.{Protobuf}
use gz_transport.Handlers.Request.{ReqHandler, req_type, rep_type, serialize, req_handles}
use gz_transport.Handlers.Reply.{rep_handles}
use gz_transport.Publisher.{ServicePublisher}
use gz_transport.NodeShared.{Process}
use gz_transport.NodeShared.Services.{
  Services, send_request, progress_of, progress_of-insert, send_one, send_loop, request_frames,
}

module _ {Msg : Type 0} ⦃pb : Protobuf Msg⦄ (me : Process) where
  -- A request that needs a response stays in the storage when it is sent.
  pub send_loop-requests :
      (p : ServicePublisher) (topic req rep : Text) (hs : List (ReqHandler Msg)) (s : Services Msg)
      → text_eq rep me.empty_type ≡ false
      → (send_loop me p topic req rep hs s).0.requests ≡ s.requests
  unfolding send_loop send_one
  send_loop-requests p topic req rep [] s e = refl
  send_loop-requests p topic req rep (h ∷ hs) s e =
      ground (arith, send_loop-requests p topic req rep hs (send_one me p topic req rep h s).0 e)

  -- The loop leaves alone a handler that it does not meet or that was requested before.
  send_loop-progress :
      (k : Text) (p : ServicePublisher) (topic req rep : Text) (hs : List (ReqHandler Msg))
      (s : Services Msg)
      → ((progress_of k s.progress).requested ≡ true) ⊎ All (λ g. text_eq g.h_uuid k ≡ false) hs
      → progress_of k (send_loop me p topic req rep hs s).0.progress ≡ progress_of k s.progress
  unfolding send_loop send_one
  send_loop-progress k p topic req rep [] s u = refl
  send_loop-progress k p topic req rep (h ∷ hs) s u =
      let old = progress_of h.h_uuid s.progress in
      let s' = (send_one me p topic req rep h s).0 in
      let same : progress_of k s'.progress ≡ progress_of k s.progress = ground (
        arith,
        progress_of-insert h.h_uuid k (record old { requested = true }) s.progress,
        text_eq_iff h.h_uuid k,
      ) in
      send_loop-progress k p topic req rep hs s' (ground (arith, same)) ∙ same

  send_loop-append :
      (p : ServicePublisher) (topic req rep : Text) (hs hs' : List (ReqHandler Msg))
      (s : Services Msg)
      → let r = send_loop me p topic req rep hs s in
        let r' = send_loop me p topic req rep hs' r.0 in
        send_loop me p topic req rep (hs ++ hs') s ≡ (r'.0, r.1 ++ r'.1)
  unfolding send_loop
  send_loop-append p topic req rep [] hs' s = refl
  send_loop-append p topic req rep (h ∷ hs) hs' s =
      ground (arith, send_loop-append p topic req rep hs hs' (send_one me p topic req rep h s).0)

  -- A request that is ready goes out when the loop meets it, and is marked.
  send_one-ready :
      (p : ServicePublisher) (topic : Text) (h : ReqHandler Msg) (data_ : Text) (s : Services Msg)
      → me.is_zeromq ≡ true
      → serialize h ≡ some data_
      → (progress_of h.h_uuid s.progress).requested ≡ false
      → ((send_one me p topic (req_type h) (rep_type h) h s).1
          ≡ send_request (request_frames me p topic h data_ (req_type h) (rep_type h)) ∷ [])
        × (progress_of h.h_uuid (send_one me p topic (req_type h) (rep_type h) h s).0.progress
            ≡ record (progress_of h.h_uuid s.progress) { requested = true })
  unfolding send_one
  send_one-ready p topic h data_ s z e u =
      let old = progress_of h.h_uuid s.progress in
      rw (z, e, u)
        (ground (
          arith,
          text_eq_refl (req_type h),
          text_eq_refl (rep_type h),
          text_eq_refl h.h_uuid,
          progress_of-insert h.h_uuid h.h_uuid (record old { requested = true }) s.progress,
        ))

  pub send_loop-ready :
      (p : ServicePublisher) (topic : Text) (before : List (ReqHandler Msg)) (h : ReqHandler Msg)
      (after : List (ReqHandler Msg)) (data_ : Text) (s : Services Msg)
      → All (λ g. text_eq g.h_uuid h.h_uuid ≡ false) before
      → me.is_zeromq ≡ true
      → serialize h ≡ some data_
      → (progress_of h.h_uuid s.progress).requested ≡ false
      → let r = send_loop me p topic (req_type h) (rep_type h) (before ++ h ∷ after) s in
        In (send_request (request_frames me p topic h data_ (req_type h) (rep_type h))) r.1
        × (progress_of h.h_uuid r.0.progress
            ≡ record (progress_of h.h_uuid s.progress) { requested = true })
  unfolding send_loop
  send_loop-ready p topic before h after data_ s apart z e u =
      let req = req_type h in
      let rep = rep_type h in
      let k = h.h_uuid in
      let r = send_loop me p topic req rep before s in
      let same = send_loop-progress k p topic req rep before s (inr apart) in
      let r' = send_one me p topic req rep h r.0 in
      let ready = send_one-ready p topic h data_ r.0 z e (ground (arith, same)) in
      let r'' = send_loop me p topic req rep after r'.0 in
      let later = send_loop-progress k p topic req rep after r'.0 (inl (ground (arith, ready))) in
      let sent = send_request (request_frames me p topic h data_ req rep) in
      let found : In sent (r'.1 ++ r''.1) =
        rw ready.0 (Within-front (sent ∷ []) (sent ∷ []) r''.1 (Within-self (sent ∷ []))) in
      rw (send_loop-append p topic req rep before (h ∷ after) s)
        (Within-back (sent ∷ []) r.1 (r'.1 ++ r''.1) found, ground (arith, later, ready, same))
