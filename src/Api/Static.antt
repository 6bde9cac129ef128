-- ===== src/Api/Static.antt =====
-- crates/api/src/lib.rs and static_files.rs: the routes, and the files of the dashboard.
-- `assets` is `StaticAssets::get` of rust-embed, `mime` is `mime_guess::from_path` with its default,
-- and `F` the contents of a file. axum prefers a route without a wildcard, and hands the wildcard
-- what follows the first slash; a path that is only a slash has its own route.
use tenso.Prelude.{
  ◌≡◌, ◌≢◌, refl, String, Option, none, some, ite, if_pos, if_neg, text_discrete, Option-cases, inl,
  inr, ◌⊎◌,
}

pub data Handler : Type 0 where
  get_health get_contention get_tokens get_ohlcv serve_index : Handler
  serve_static : String → Handler

-- What `/*path` binds.
abbrev pub after_slash : String → String
after_slash String.[] = ""
after_slash (String.◌∷◌ c path) = path

-- build_router
unfoldable pub build_router : String → Handler
build_router path = ite (text_discrete path "/api/health") Handler.get_health (
    ite (text_discrete path "/api/contention") Handler.get_contention (
      ite (text_discrete path "/api/tokens") Handler.get_tokens (
        ite (text_discrete path "/api/ohlcv") Handler.get_ohlcv (
          ite (text_discrete path "/") Handler.serve_index
            (Handler.serve_static (after_slash path))))))

module _ (F : Type 0) where
  pub data StaticResponse : Type 0 where
    -- (CONTENT_TYPE, content)
    file : String → F → StaticResponse
    -- (StatusCode::NOT_FOUND, "not found")
    not_found : StaticResponse

  module _ (assets : String → Option F) (mime : String → String) where
    unfoldable pub serve_embedded : String → StaticResponse
    serve_embedded path = elim (assets path) [
      | none ↦ not_found
      | some content ↦ file (mime path) content
    ]

    -- `serve_index` and `serve_static`; none for the JSON API.
    unfoldable pub serve_file : Handler → Option StaticResponse
    serve_file Handler.get_health = none
    serve_file Handler.get_contention = none
    serve_file Handler.get_tokens = none
    serve_file Handler.get_ohlcv = none
    serve_file Handler.serve_index = some (serve_embedded "index.html")
    serve_file (Handler.serve_static path) = some (serve_embedded path)

abbrev IsApi : String → Type 0
IsApi path =
    (path ≡ "/api/health")
    ⊎ ((path ≡ "/api/contention") ⊎ ((path ≡ "/api/tokens") ⊎ (path ≡ "/api/ohlcv")))

-- The file that a path names: the dashboard for the root, or what follows the slash.
abbrev file_path : String → String
file_path path = ite (text_discrete path "/") "index.html" (after_slash path)

module _ (F : Type 0) (assets : String → Option F) (mime : String → String) where
  -- What stands in the file, if there is one.
  abbrev Answers : String → Option (StaticResponse F) → Type 0
  Answers path r =
      ((content : F) × (assets path ≡ some content)
        × (r ≡ some (StaticResponse.file (mime path) content)))
      ⊎ ((assets path ≡ none) × (r ≡ some StaticResponse.not_found))

  serve_embedded-Answers : (path : String) → Answers path (some (serve_embedded F assets mime path))
  unfolding serve_embedded
  serve_embedded-Answers path = elim (Option-cases (assets path)) [
    | inl e ↦ inr (e, rw (e, serve_embedded) refl)
    | inr (content, e) ↦ inl (content, e, rw (e, serve_embedded) refl)
  ]

  -- Every path but the four of the JSON API is answered with the embedded file that it names, the
  -- root with `index.html`, and with the type of that file; or with 404 if there is no such file.
  -- No file stands in the way of the JSON API.
  pub serve_file-build_router :
      (path : String)
      → (IsApi path × (serve_file F assets mime (build_router path) ≡ none))
        ⊎ (¬ IsApi path × Answers (file_path path) (serve_file F assets mime (build_router path)))
  unfolding serve_file build_router
  serve_file-build_router path = elim (text_discrete path "/api/health") [
    | yes a ↦ inl (inl a, rw (build_router, if_pos (text_discrete path "/api/health") a) refl)
    | no a ↦ elim (text_discrete path "/api/contention") [
      | yes b ↦ inl (
        inr (inl b),
        rw
            (
              build_router,
              if_neg (text_discrete path "/api/health") a,
              if_pos (text_discrete path "/api/contention") b,
            )
            refl,
      )
      | no b ↦ elim (text_discrete path "/api/tokens") [
        | yes c ↦ inl (
          inr (inr (inl c)),
          rw
              (
                build_router,
                if_neg (text_discrete path "/api/health") a,
                if_neg (text_discrete path "/api/contention") b,
                if_pos (text_discrete path "/api/tokens") c,
              )
              refl,
        )
        | no c ↦ elim (text_discrete path "/api/ohlcv") [
          | yes d ↦ inl (
            inr (inr (inr d)),
            rw
                (
                  build_router,
                  if_neg (text_discrete path "/api/health") a,
                  if_neg (text_discrete path "/api/contention") b,
                  if_neg (text_discrete path "/api/tokens") c,
                  if_pos (text_discrete path "/api/ohlcv") d,
                )
                refl,
          )
          | no d ↦ elim (text_discrete path "/") [
            | yes e ↦ inr (
              none_of a b c d,
              rw
                  (
                    build_router,
                    if_neg (text_discrete path "/api/health") a,
                    if_neg (text_discrete path "/api/contention") b,
                    if_neg (text_discrete path "/api/tokens") c,
                    if_neg (text_discrete path "/api/ohlcv") d,
                    if_pos (text_discrete path "/") e,
                    if_pos (text_discrete path "/") e,
                  )
                  (serve_embedded-Answers "index.html"),
            )
            | no e ↦ inr (
              none_of a b c d,
              rw
                  (
                    build_router,
                    if_neg (text_discrete path "/api/health") a,
                    if_neg (text_discrete path "/api/contention") b,
                    if_neg (text_discrete path "/api/tokens") c,
                    if_neg (text_discrete path "/api/ohlcv") d,
                    if_neg (text_discrete path "/") e,
                    if_neg (text_discrete path "/") e,
                  )
                  (serve_embedded-Answers (after_slash path)),
            )
          ]
        ]
      ]
    ]
  ]
    where
      none_of :
          path ≢ "/api/health"
          → path ≢ "/api/contention"
          → path ≢ "/api/tokens"
          → path ≢ "/api/ohlcv"
          → ¬ IsApi path
      none_of a b c d (inl x) = a x
      none_of a b c d (inr (inl x)) = b x
      none_of a b c d (inr (inr (inl x))) = c x
      none_of a b c d (inr (inr (inr x))) = d x
