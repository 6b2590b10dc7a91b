-- ===== src/Http/Routing.antt =====
-- src/http.rs: where the router sends a request.
use cubby.Base.{ℕ, ◌&&◌, codes, text_eq, if◌then◌else◌}
use cubby.Keypath.{PercentEncoding}
use cubby.Multipart.{Digests}
use cubby.Store.CorsConfig.{RulesJson}
use cubby.Http.{
  HeaderRules, HttpRequest, AppState, is_browser_probe, is_ui_path, empty_status, redirect_to_ui,
  Handled, Route, fallen_through, answered, panicked, to_ui, to_s3, answer, dropped,
  looks_like_browser,
}
use cubby.Http.Preflight.{maybe_preflight}

module _ (pe : PercentEncoding) (json : RulesJson) (rules : HeaderRules) (digests : Digests) where
  open rules use {is_visible, is_value}

  abbrev after_preflight : HttpRequest → Handled × AppState → Route × AppState
  after_preflight request (answered response, state) = (answer response, state)
  after_preflight request (panicked, state) = (dropped, state)
  after_preflight request (fallen_through, state) = (
    (if is_browser_probe request.path
        then answer (empty_status 404)
        else if text_eq request.method (codes "GET")
            && text_eq request.path (codes "/")
            && looks_like_browser pe json rules digests request
        then answer redirect_to_ui
        else to_s3),
    state,
  )

  -- `Router::call`, up to what it hands on.
  unfoldable pub call : ℕ → HttpRequest → AppState → Route × AppState
  unfolding maybe_preflight looks_like_browser
  call now request state =
      let preflight = maybe_preflight pe json rules digests now request state in
      if is_ui_path request.path
      then (to_ui, state)
      else after_preflight request
          (if text_eq request.method (codes "OPTIONS") then preflight else (fallen_through, state))
