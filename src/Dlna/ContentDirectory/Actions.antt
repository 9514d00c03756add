-- ===== src/Dlna/ContentDirectory/Actions.antt =====
-- dlna/content_directory_controller.go: every action but X_SetBookmark has one answer and changes nothing.
use Prim.Native.String.{String}
use godlna.Base.{
  codes, text_beq, List, ◌++◌, Option, none, some, ◌≡◌, inl, false, inr, refl, Bool-cases, ℤ,
}
use godlna.Backend.Object.{Object}
use godlna.Backend.Filter.{DatabaseDriver, SearchResponse}
use godlna.Backend.Service
use godlna.Backend.Service.{
  World, Media, Result, ok, err, object, children, parent_id, set_bookmark,
}
use godlna.Soap.Action.{Action}
use godlna.Soap.Response.{Call, invalid_action_error_code}
use godlna.Soap.Response.Answers.{
  IsAnswered, send_error-bodies, send_upnp_error-bodies, send_action_response-bodies,
}
use godlna.Soap.Value.{Response, ready}
use godlna.Dlna.Entries.{Request}
use godlna.Dlna.ContentDirectory.{
  Env, Decoded, decoded, refused, BrowseArgs, Browsed, found, stopped, browse_direct_children,
  browse_metadata, by_flag, browse_object, browse, send_browse, send_ready, send_extra, send_plain,
  x_set_bookmark, by_action, system_update_id, feature_list_out,
}

-- A Browse that stopped has sent its error.
IsStopped : Browsed → Type 0
IsStopped (found v total) = Unit
IsStopped (stopped cs) = IsAnswered cs

send_plain-IsAnswered : (env : Env) (e : Service.Error) → IsAnswered (send_plain env e)
unfolding send_plain
send_plain-IsAnswered env e = inr (send_error-bodies _ none)

browse_direct_children-IsStopped :
    (env : Env) (o : Object) (r : Request) (res : Option SearchResponse)
    → IsStopped (browse_direct_children env o r res)
unfolding IsStopped browse_direct_children
browse_direct_children-IsStopped env o r none = send_plain-IsAnswered env _
browse_direct_children-IsStopped env o r (some res) = tt

browse_metadata-IsStopped :
    (env : Env) (o : Object) (r : Request) (p : Result ℤ) → IsStopped (browse_metadata env o r p)
unfolding IsStopped browse_metadata
browse_metadata-IsStopped env o r (err e) = send_plain-IsAnswered env e
browse_metadata-IsStopped env o r (ok p) = tt

send_browse-IsAnswered : (a : Action) (b : Browsed) → IsStopped b → IsAnswered (send_browse a b)
unfolding IsStopped send_browse send_extra
send_browse-IsAnswered a (found v total) h = inr (send_action_response-bodies a _ none)
send_browse-IsAnswered a (stopped cs) h = h

send_ready-IsAnswered : (a : Action) (out : Response) → IsAnswered (send_ready a out)
unfolding send_ready send_extra
send_ready-IsAnswered a out = inr (send_action_response-bodies a _ none)

module _ {S : Type 0} (drv : DatabaseDriver S) (env : Env) where
  by_flag-IsStopped :
      (s : S) (args : BrowseArgs) (r : Request) (o : Object)
      → IsStopped (by_flag drv env s args r o)
  unfolding by_flag
  by_flag-IsStopped s args r o =
      elim (Bool-cases (text_beq args.browse_flag (codes "BrowseDirectChildren"))) [
        | inl c ↦ rw c (browse_direct_children-IsStopped env o r _)
        | inr c ↦ elim (Bool-cases (text_beq args.browse_flag (codes "BrowseMetadata"))) [
          | inl d ↦ rw (c, d) (browse_metadata-IsStopped env o r _)
          | inr d ↦ rw (c, d) (unfold IsStopped in inr (send_upnp_error-bodies _ _ none))
        ]
      ]

  browse_object-IsStopped :
      (s : S) (args : BrowseArgs) (r : Request) (res : Result Object)
      → IsStopped (browse_object drv env s args r res)
  unfolding browse_object
  browse_object-IsStopped s args r (err e) =
      unfold IsStopped in inr (send_upnp_error-bodies _ _ (some 400))
  browse_object-IsStopped s args r (ok o) = by_flag-IsStopped s args r o

  browse-IsStopped :
      (s : S) (r : Request) (d : Decoded BrowseArgs) → IsStopped (browse drv env s r d)
  unfolding browse
  browse-IsStopped s r (refused e) = unfold IsStopped in inr (send_error-bodies e none)
  browse-IsStopped s r (decoded args) = browse_object-IsStopped s args r _

module _ {S F : Type 0} (drv : DatabaseDriver S) (media : Media F) (env : Env) where
  -- An answer without an effect.
  unfoldable pub IsPlain : World S F → World S F × List Call → Type 0
  IsPlain w x = (x.0 ≡ w) × IsAnswered x.1

  plain : (w : World S F) (cs : List Call) → IsAnswered cs → IsPlain w (w, cs)
  unfolding IsPlain
  plain w cs h = (refl, h)

  pub by_action-IsPlain :
      (w : World S F) (r : Request) (a : Action)
      → text_beq a.name (codes "X_SetBookmark") ≡ false
      → IsPlain w (by_action drv media env w r a)
  unfolding by_action
  by_action-IsPlain w r a other =
      let now = plain w in
      let is = λ (name : String). Bool-cases (text_beq a.name (codes name)) in
      elim (is "Browse") [
        | inl b ↦ rw b (
            now _ (
              send_browse-IsAnswered a _
                (browse-IsStopped drv env w.store r (env.decode_browse r.body))))
        | inr b ↦ rw b (elim (is "GetSearchCapabilities") [
          | inl c ↦
              rw c (now _ (send_ready-IsAnswered a (ready (codes "<SearchCaps></SearchCaps>"))))
          | inr c ↦ rw c (elim (is "GetSortCapabilities") [
            | inl d ↦ rw d (now _ (send_ready-IsAnswered a (ready (codes "<SortCaps></SortCaps>"))))
            | inr d ↦ rw d (elim (is "GetSystemUpdateID") [
              | inl e ↦ rw e (
                  now _ (
                    send_ready-IsAnswered a
                      (ready (codes "<Id>" ++ (system_update_id ++ codes "</Id>")))))
              | inr e ↦ rw e (elim (is "X_GetFeatureList") [
                | inl f ↦ rw f (now _ (send_ready-IsAnswered a feature_list_out))
                | inr f ↦
                    rw (f, other)
                      (now _ (
                        inr (
                          send_upnp_error-bodies invalid_action_error_code
                            (codes "unknown action '" ++ (a.name ++ codes "'")) (some 401))))
              ])
            ])
          ])
        ])
      ]

  pub by_action_bookmark :
      (w : World S F) (r : Request) (a : Action)
      → a.name ≡ codes "X_SetBookmark"
      → by_action drv media env w r a
        ≡ x_set_bookmark drv media env w a r (env.decode_set_bookmark r.body)
  unfolding by_action text_beq
  by_action_bookmark w r a n = rw n refl
