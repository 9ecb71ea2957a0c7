-- ===== src/Extract/Pipeline/Failures.antt =====
-- How `run_extract` of src/util/extract.rs fails: by the errors of a request only.
use serica.Prelude.{
  ℕ, inl, inr, not, Option, none, some, List, [], ◌∷◌, ◌++◌, ltb, Bool-cases, length, Text,
}
use serica.Error.{Result, ok, err, guard}
use serica.Error.Documented.{FailsOfRequest, >>=-FailsOfRequest, guard-FailsOfRequest}
use serica.Config.{Config}
use serica.Gateway.{extract_cache_key}
use serica.Ssrf.Normalize.{normalize_extract_url}
use serica.Ssrf.Fetch.{Response, Chunk, received, broken, is_success, fetch_extract_target}
use serica.Ssrf.Failures.{fetch-FailsOfRequest}
use serica.Fetch.{
  Unicode, Printer, read_chunks, length_ok, map_ok, read_capped_bytes, read_capped_body,
  is_extractable_content_type_header,
}
use serica.Extract.{ExtractOutcome}
use serica.Extract.Pipeline.{
  ExtractResponse, Store, Env, Weather, Sent, attempt, timed, conclude, sent_by, cached_response,
  serve, run_extract,
}

read_chunks-FailsOfRequest :
    (printer : Printer) (max_bytes : ℕ) (buf : List ℕ) (stream : List Chunk)
    → FailsOfRequest (read_chunks printer max_bytes buf stream)
unfolding read_chunks
read_chunks-FailsOfRequest printer max_bytes buf [] = tt
read_chunks-FailsOfRequest printer max_bytes buf (broken e ∷ stream) = tt
read_chunks-FailsOfRequest printer max_bytes buf (received chunk ∷ stream) =
    elim (Bool-cases (ltb max_bytes (length (buf ++ chunk)))) [
      | inl e ↦ rw e tt
      | inr e ↦ rw e (read_chunks-FailsOfRequest printer max_bytes (buf ++ chunk) stream)
    ]

map_ok-FailsOfRequest :
    {A B : Type 0} (f : A → B) (r : Result A) → FailsOfRequest r → FailsOfRequest (map_ok f r)
map_ok-FailsOfRequest f (ok a) h = tt
map_ok-FailsOfRequest f (err e) h = h

read_capped_bytes-FailsOfRequest :
    (printer : Printer) (max_bytes : ℕ) (response : Response)
    → FailsOfRequest (read_capped_bytes printer max_bytes response)
unfolding read_capped_bytes
read_capped_bytes-FailsOfRequest printer max_bytes response =
    elim (Bool-cases (length_ok printer max_bytes response.content_length)) [
      | inl e ↦ rw e (read_chunks-FailsOfRequest printer max_bytes [] response.chunks)
      | inr e ↦ rw e tt
    ]

read_capped_body-FailsOfRequest :
    (unicode : Unicode) (printer : Printer) (response : Response) (max_bytes : ℕ)
    → FailsOfRequest (read_capped_body unicode printer response max_bytes)
unfolding read_capped_body
read_capped_body-FailsOfRequest unicode printer response max_bytes =
    map_ok-FailsOfRequest unicode.from_utf8_lossy (read_capped_bytes printer max_bytes response)
      (read_capped_bytes-FailsOfRequest printer max_bytes response)

module _ (env : Env) (config : Config) where
  open env use {U, net, unicode, printer, html, hasher}

  attempt-FailsOfRequest :
      (weather : Weather) (url : U.Url) → FailsOfRequest (attempt env config weather url)
  unfolding attempt
  attempt-FailsOfRequest weather url =
      let fetched = (fetch_extract_target U net config.proxy.extract_url url).result in
      >>=-FailsOfRequest fetched _ (fetch-FailsOfRequest U net config.proxy.extract_url url)
        (λ (response, final_url).
          >>=-FailsOfRequest (guard (is_success response) _) _
            (guard-FailsOfRequest (is_success response) _ tt)
            (λ _.
              let is_html = is_extractable_content_type_header unicode response.content_type in
              >>=-FailsOfRequest (guard is_html _) _ (guard-FailsOfRequest is_html _ tt) (λ _.
                let body = read_capped_body unicode printer response config.extract.max_raw_bytes in
                >>=-FailsOfRequest body _
                  (read_capped_body-FailsOfRequest unicode printer response
                    config.extract.max_raw_bytes)
                  (λ _.
                    >>=-FailsOfRequest (guard (not weather.panics) _) _
                      (guard-FailsOfRequest (not weather.panics) _ tt) (λ _. tt)))))

  timed-FailsOfRequest :
      (weather : Weather) (url : U.Url) → FailsOfRequest (timed env config weather url)
  unfolding timed
  timed-FailsOfRequest weather url = elim (Bool-cases weather.times_out) [
    | inl e ↦ rw e tt
    | inr e ↦ rw e (attempt-FailsOfRequest weather url)
  ]

  conclude-FailsOfRequest :
      (weather : Weather) (key : Text) (dials : List (Sent env config))
      (r : Result (Text × ExtractOutcome))
      → FailsOfRequest r
      → FailsOfRequest (conclude env config weather key dials r).result
  unfolding conclude
  conclude-FailsOfRequest weather key dials (err e) h = h
  conclude-FailsOfRequest weather key dials (ok fetched) h = tt

  serve-FailsOfRequest :
      (weather : Weather) (url : U.Url) (key : Text) (c : Option ExtractResponse)
      → FailsOfRequest (serve env config weather url key c).result
  unfolding serve
  serve-FailsOfRequest weather url key (some response) = tt
  serve-FailsOfRequest weather url key none =
      conclude-FailsOfRequest weather key (sent_by env config weather url)
        (timed env config weather url) (timed-FailsOfRequest weather url)

  pub run_extract-FailsOfRequest :
      (weather : Weather) (store : Store) (url : U.Url)
      → FailsOfRequest (run_extract env config weather store url).result
  unfolding run_extract
  run_extract-FailsOfRequest weather store url =
      let key = extract_cache_key U hasher (normalize_extract_url U url) in
      serve-FailsOfRequest weather url key (cached_response env config store key)
