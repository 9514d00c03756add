-- ===== src/Dlna/ContentDirectory/Answers.antt =====
-- dlna/content_directory_controller.go: every control request has one answer, but for a bookmark that fails.
use godlna.Base.{
  ap, Text, ℕ, [], ◌∷◌, if-both, codes, text_beq, text_beq_iff, List, Option, none, some, ◌≡◌, ◌⊎◌,
  inl, false, sym, inr, refl, ◌∙◌, arith, Bool-cases, Option-cases,
}
use godlna.Backend.Filter.{DatabaseDriver}
use godlna.Backend.Service
use godlna.Backend.Service.{
  World, Media, Result, ok, err, object, children, parent_id, set_bookmark,
}
use godlna.Soap.Action.{Action, detect_action}
use godlna.Soap.Response
use godlna.Soap.Response.{Call, write_header, send_error, invalid_action_error_code, bodies}
use godlna.Soap.Response.Client.{no_reply, replied, replied_error_first}
use godlna.Soap.Response.Answers.{
  IsAnswered, send_error-bodies, send_action_response-bodies, bodies-append,
}
use godlna.Soap.Value.{build_xml, nothing}
use godlna.Dlna.Entries.{Request}
use godlna.Dlna.ContentDirectory.{
  Env, Decoded, decoded, refused, SetBookmarkArgs, content_directory_service_type, send_plain,
  position, finish_bookmark, x_set_bookmark, by_action, by_detected, handle_control_url,
}
use godlna.Dlna.ContentDirectory.Actions.{IsPlain, by_action-IsPlain, by_action_bookmark}

module _ {S F : Type 0} (drv : DatabaseDriver S) (media : Media F) (env : Env) where
  abbrev name_of : Option Action → Text
  name_of none = []
  name_of (some a) = a.name

  abbrev type_of : Option Action → Text
  type_of none = []
  type_of (some a) = a.service_type

  -- A bookmark that the backend refused, for the arguments of the request.
  abbrev pub Failed : World S F → Request → Type 0
  Failed w r =
      (args : SetBookmarkArgs) × (e : Service.Error) × (env.decode_set_bookmark r.body
        ≡ decoded args)
      × ((set_bookmark drv media w args.object_id (position r args)).1 ≡ some e)

  -- The request is an X_SetBookmark for this server.
  abbrev pub Sets : Request → Action → Type 0
  Sets r a =
      (r.method ≡ codes "POST")
      × (detect_action r.soap_action ≡ some a)
      × (a.service_type ≡ content_directory_service_type)
      × (a.name ≡ codes "X_SetBookmark")

  -- What the client gets of a bookmark that the backend refused: the error alone, with its status, though the handler
  -- writes two bodies.
  abbrev pub IsRefused : Service.Error → List Call → Type 0
  IsRefused e cs =
      ((replied no_reply cs).status ≡ some 500)
      × ((replied no_reply cs).body
          ≡ (replied no_reply (send_error (Response.plain (env.describe e)) none)).body)
      × (bodies cs ≡ 2)

  finish_bookmark-IsRefused :
      (a : Action) (e : Service.Error) → IsRefused e (finish_bookmark env a (some e))
  unfolding finish_bookmark send_plain
  finish_bookmark-IsRefused a e =
      let error = Response.plain (env.describe e) in
      let (status, body) = replied_error_first error a (build_xml nothing) in
      (
        status,
        body,
        bodies-append (send_error error none) _
            ∙ omega (
              arith,
              (send_error-bodies error none).0,
              (send_action_response-bodies a (build_xml nothing) none).0,
            ),
      )

  -- The backend refuses the bookmark of the request.
  abbrev pub IsRefusal : World S F → Request → Type 0
  IsRefusal w r = (a : Action) × Sets r a × Failed w r

  -- One answer to a request that the backend does not refuse; it changes nothing but for an X_SetBookmark.
  -- Otherwise the refusal.
  unfoldable pub IsHandled : World S F → Request → World S F × List Call → Type 0
  IsHandled w r x =
      (¬ IsRefusal w r × IsAnswered x.1 × ((x.0 ≡ w) ⊎ ((a : Action) × Sets r a)))
      ⊎ ((a : Action) × Sets r a × (fail : Failed w r) × IsRefused fail.1 x.1)

  error_of : World S F → Request → Decoded SetBookmarkArgs → Option Service.Error
  error_of w r (refused e) = none
  error_of w r (decoded args) = (set_bookmark drv media w args.object_id (position r args)).1

  x_set_bookmark-IsHandled :
      (w : World S F) (r : Request) (a : Action) (d : Decoded SetBookmarkArgs)
      → Sets r a
      → env.decode_set_bookmark r.body ≡ d
      → IsHandled w r (x_set_bookmark drv media env w a r d)
  unfolding x_set_bookmark IsHandled error_of
  x_set_bookmark-IsHandled w r a (refused e) s h = inl (
    λ (_, _, (args, _, f, _)). let bad : refused e ≡ decoded args = sym h ∙ f in absurd (cc),
    inr (send_error-bodies e none),
    inr (a, s),
  )
  x_set_bookmark-IsHandled w r a (decoded args) s h =
      let result = (set_bookmark drv media w args.object_id (position r args)).1 in
      elim (Option-cases result) [
        | inl n ↦ inl (
          λ (_, _, (args', e, f, g)).
              let same : result ≡ (set_bookmark drv media w args'.object_id (position r args')).1 =
                ap (error_of w r) (sym h ∙ f) in
              let bad : none ≡ some e = sym n ∙ same ∙ g in absurd (cc),
          rw n (unfold finish_bookmark in inr (send_action_response-bodies a _ none)),
          inr (a, s),
        )
        | inr (e, f) ↦ inr (a, s, (args, e, h, f), rw f (finish_bookmark-IsRefused a e))
      ]

  status-IsHandled :
      (w : World S F) (r : Request) (n : ℕ)
      → ¬ IsRefusal w r
      → IsHandled w r (w, write_header n ∷ [])
  unfolding IsHandled
  status-IsHandled w r n denies = inl (denies, inl (refl, refl), inl refl)

  by_action-IsHandled :
      (w : World S F) (r : Request) (a : Action)
      → r.method ≡ codes "POST"
      → detect_action r.soap_action ≡ some a
      → a.service_type ≡ content_directory_service_type
      → IsHandled w r (by_action drv media env w r a)
  unfolding IsHandled IsPlain
  by_action-IsHandled w r a m d t = elim (Bool-cases (text_beq a.name (codes "X_SetBookmark"))) [
    | inl b ↦
        let n = (text_beq_iff a.name (codes "X_SetBookmark")).0 b in
        rw (by_action_bookmark drv media env w r a n)
          (x_set_bookmark-IsHandled w r a (env.decode_set_bookmark r.body) (m, d, t, n) refl)
    | inr b ↦
        let (same, one) = by_action-IsPlain drv media env w r a b in
        inl (λ (a', (_, d', _, n'), _). not_named a a' r d d' n' b, one, inl same)
  ]
    where
      not_named :
          (a a' : Action) (r : Request)
          → detect_action r.soap_action ≡ some a
          → detect_action r.soap_action ≡ some a'
          → a'.name ≡ codes "X_SetBookmark"
          → text_beq a.name (codes "X_SetBookmark") ≡ false
          → ⊥
      not_named a a' r d d' n b =
          let same : some a ≡ some a' = sym d ∙ d' in
          let name : a.name ≡ codes "X_SetBookmark" = ap name_of same ∙ n in
          let met = (text_beq_iff a.name (codes "X_SetBookmark")).1 name in
          absurd (ground (arith, met, b))

  by_detected-IsHandled :
      (w : World S F) (r : Request) (d : Option Action)
      → r.method ≡ codes "POST"
      → detect_action r.soap_action ≡ d
      → IsHandled w r (by_detected drv media env w r d)
  unfolding by_detected
  by_detected-IsHandled w r none m h =
      status-IsHandled w r 400
        (λ (a, (_, d, _, _), _). let bad : none ≡ some a = sym h ∙ d in absurd (cc))
  by_detected-IsHandled w r (some a) m h =
      if-both (IsHandled w r) _
        (λ b.
          by_action-IsHandled w r a m h
            ((text_beq_iff a.service_type content_directory_service_type).0 b))
        (λ b. status-IsHandled w r 400 (λ (a', (_, d, t, _), _).
          let same : some a ≡ some a' = sym h ∙ d in
          let type : a.service_type ≡ content_directory_service_type = ap type_of same ∙ t in
          let met = (text_beq_iff a.service_type content_directory_service_type).1 type in
          absurd (ground (arith, met, b))))

  -- A control request, whatever its method, header and body, has one answer (a status alone, or one body), and changes
  -- nothing unless it is an X_SetBookmark, as long as it is no X_SetBookmark whose bookmark the backend refuses. For
  -- such a one the handler writes the error and then the response of a success as well, and the client gets the error
  -- alone, with the status 500.
  pub handle_control_url_answers :
      (w : World S F) (r : Request) → IsHandled w r (handle_control_url drv media env w r)
  unfolding handle_control_url
  handle_control_url_answers w r =
      if-both (IsHandled w r) _
        (λ b. by_detected-IsHandled w r _ ((text_beq_iff r.method (codes "POST")).0 b) refl)
        (λ b. status-IsHandled w r 405 (λ (a, (m, _, _, _), _).
          let met = (text_beq_iff r.method (codes "POST")).1 m in absurd (ground (arith, met, b))))
