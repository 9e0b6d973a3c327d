-- ===== src/Start/Fetched.antt =====
-- From where the overlay is loaded that a peer starts with.
use reloadjs.Base.{
  ◌≡◌, ◌≢◌, refl, sym, ap, ◌∙◌, append_assoc, append-nil, Bool, true, false, List, [], ◌∷◌, ◌++◌,
  Option, none, some, All, Text,
}
use reloadjs.Config.Elements.{Root}
use reloadjs.Start.{
  UserConf, Fetch, run, FetchEvent, https_chunk, http_chunk, https_end, http_end, https_error,
  http_error, http_status, retry_http, on_fetch,
}

-- The callbacks of the request over HTTPS.
abbrev pub IsHttps : FetchEvent → Type 0
IsHttps (https_chunk chunk) = Unit {0}
IsHttps https_end = Unit {0}
IsHttps https_error = Unit {0}
IsHttps (http_chunk chunk) = ⊥
IsHttps http_end = ⊥
IsHttps http_error = ⊥
IsHttps (http_status code) = ⊥

module _ (parse : Text → Option Root) (conf : UserConf) where
  -- A callback of a request that was made, before the program has crashed.
  pub data Step (s : Fetch) : Fetch → Type 0 where
    over_https :
        (e : FetchEvent)
        → IsHttps e
        → s.https ≡ true
        → s.crashed ≡ false
        → Step s (on_fetch parse conf e s)
    over_http :
        (e : FetchEvent) → s.http ≡ true → s.crashed ≡ false → Step s (on_fetch parse conf e s)

  pub data Fetching (file : Text) : Fetch → Type 0 where
    started : Fetching file (run parse conf file)
    went_on : {s s' : Fetch} → Fetching file s → Step s s' → Fetching file s'

  Step-idle : {s s' : Fetch} → Step s s' → s.https ≡ false → s.http ≡ false → s' ≡ s
  Step-idle (over_https e h asked alive) idle quiet = cc
  Step-idle (over_http e asked alive) idle quiet = cc

  run-local :
      (file : Text)
      → conf.force_local ≡ true
      → ((run parse conf file).https ≡ false) × ((run parse conf file).http ≡ false)
  unfolding run
  run-local file own = rw own (refl, refl)

  -- With `forceLocalConfig` the overlay of the local file is checked, once, and no request is made.
  pub Fetching-local :
      {file : Text} {s : Fetch}
      → Fetching file s
      → conf.force_local ≡ true
      → s ≡ run parse conf file
  Fetching-local started own = refl
  Fetching-local {file} (went_on {s} f st) own =
      let same_state = Fetching-local f own in
      Step-idle st (ap (λ x. x.https) same_state ∙ (run-local file own).0)
        (ap (λ x. x.http) same_state ∙ (run-local file own).1)
      ∙ same_state

  -- What is parsed is the beginning of a text.
  abbrev pub IsParsed : Text → Option Root → Type 0
  IsParsed whole object =
      (begin : Text) × (rest : Text) × (whole ≡ begin ++ rest) × (object ≡ parse begin)

  pub record IsSecure (s : Fetch) : Type 0 where
    pub no_http : s.http ≡ false
    pub parsed : All (IsParsed s.https_data) s.checks

  IsParsed-chunk :
      (whole chunk : Text) (objects : List (Option Root))
      → All (IsParsed whole) objects
      → All (IsParsed (whole ++ chunk)) objects
  IsParsed-chunk whole chunk [] h = tt
  IsParsed-chunk whole chunk (o ∷ os) ((begin, rest, e, p), later) = (
    (begin, rest ++ chunk, ap (λ x. x ++ chunk) e ∙ append_assoc begin rest chunk, p),
    IsParsed-chunk whole chunk os later,
  )

  IsParsed-end :
      (whole : Text) (objects : List (Option Root))
      → All (IsParsed whole) objects
      → All (IsParsed whole) (objects ++ parse whole ∷ [])
  IsParsed-end whole [] h = ((whole, [], sym (append-nil whole), refl), tt)
  IsParsed-end whole (o ∷ os) h = (h.0, IsParsed-end whole os h.1)

  on_fetch-IsSecure :
      (e : FetchEvent) (s : Fetch)
      → IsHttps e
      → conf.enable_http ≢ some true
      → IsSecure s
      → IsSecure (on_fetch parse conf e s)
  unfolding on_fetch
  on_fetch-IsSecure (https_chunk chunk) s h off k = record {
    no_http = k.no_http;
    parsed = IsParsed-chunk s.https_data chunk s.checks k.parsed;
  }
  on_fetch-IsSecure https_end s h off k = record {
    no_http = k.no_http;
    parsed = IsParsed-end s.https_data s.checks k.parsed;
  }
  on_fetch-IsSecure https_error s h off k = error conf.enable_http off
    where
      error : (enabled : Option Bool) → enabled ≢ some true → IsSecure (retry_http enabled s)
      error none off = record { no_http = k.no_http; parsed = k.parsed }
      error (some true) off = absurd (off refl)
      error (some false) off = k
  on_fetch-IsSecure (http_chunk chunk) s h off k = absurd h
  on_fetch-IsSecure http_end s h off k = absurd h
  on_fetch-IsSecure http_error s h off k = absurd h
  on_fetch-IsSecure (http_status code) s h off k = absurd h

  Step-IsSecure :
      {s s' : Fetch} → Step s s' → conf.enable_http ≢ some true → IsSecure s → IsSecure s'
  Step-IsSecure {s} (over_https e h asked alive) off k = on_fetch-IsSecure e s h off k
  Step-IsSecure (over_http e asked alive) off k = absurd (let no_http = k.no_http in cc)

  -- Without `forceLocalConfig` and without `enableHTTP`, in any order of the callbacks: no request is
  -- made over HTTP, and each overlay that is checked is what the parser finds in a beginning of the
  -- text that came over HTTPS.
  pub Fetching-IsSecure :
      {file : Text} {s : Fetch}
      → Fetching file s
      → conf.force_local ≡ false
      → conf.enable_http ≢ some true
      → IsSecure s
  Fetching-IsSecure started remote off =
      unfold run in rw remote (record { no_http = refl; parsed = tt })
  Fetching-IsSecure (went_on f st) remote off =
      Step-IsSecure st off (Fetching-IsSecure f remote off)
