-- ===== src/Download/Follow.antt =====
-- rong_rt/src/download.rs: redirects, and the whole of `download_resource`.
use rong.Base.{
  ℕ, suc, ◌+◌, ◌≤◌, inl, inr, Bool, true, false, ◌||◌, Option, none, some, List, [], ◌∷◌, length,
  if◌then◌else◌, ◌==◌, list_eq, nat_eq, leb, codes, arith, Bool-cases,
}
use rong.Text.{Text, trim, is_empty}
use rong.Download.{
  DownloadError, create_dir, open_file, too_many_redirects, no_location, bad_location, bad_redirect,
  bad_scheme, request_failed, Result, ok, err, Field, missing, not_text, text, Response, Hop,
  refused, responded, Faults, Disk, Ended, finalize_sink, is_download_redirect,
  max_download_redirects, resume_offset, truncate, respond,
}

pub data Followed : Type 0 where
  waits : Followed
  failed : DownloadError → Followed
  got : Response → Followed

abbrev pub opened : ℕ → Disk → Disk
opened offset d = if offset == 0 then truncate d else d

abbrev pub after_follow : Faults → ℕ → Followed → Disk → Option Ended
after_follow faults offset waits d = none
after_follow faults offset (failed e) d = some (finalize_sink d (err e))
after_follow faults offset (got r) d = some (respond faults offset r d)

-- `join`: the scheme and the text of a reference resolved against the current URL, if it can be.
module _ (join : Text → Text → Option (Text × Text)) where
  abbrev with_scheme : Option (Text × Text) → Result Text
  with_scheme none = err bad_redirect
  with_scheme (some (scheme, next)) =
      if scheme == codes "http" || scheme == codes "https" then ok next else err bad_scheme

  unfoldable pub redirect_target : Text → Field → Result Text
  redirect_target url missing = err no_location
  redirect_target url not_text = err bad_location
  redirect_target url (text value) =
      if is_empty (trim value) then err bad_location else with_scheme (join url (trim value))

  -- What follows a response; `go` is the rest of the loop from the next URL.
  abbrev hop_on :
      Bool
      → Bool
      → Result Text
      → Text
      → Response
      → (Text → Followed × List Text)
      → Followed × List Text
  hop_on false too_many target url r go = (got r, url ∷ [])
  hop_on true true target url r go = (failed too_many_redirects, url ∷ [])
  hop_on true false (err e) url r go = (failed e, url ∷ [])
  hop_on true false (ok next) url r go = ((go next).0, url ∷ (go next).1)

  -- The loop, with the URLs that are asked for. When the hops are used up it waits for an answer.
  unfoldable pub follow : List Hop → Text → ℕ → Followed × List Text
  follow [] url count = (waits, url ∷ [])
  follow (refused e ∷ hops) url count = (failed (request_failed e), url ∷ [])
  follow (responded r ∷ hops) url count =
      hop_on (is_download_redirect r.status) (leb max_download_redirects count)
        (redirect_target url r.location) url r (λ next. follow hops next (suc count))

  hop_on-le :
      (redirect : Bool) (count : ℕ) (target : Result Text) (url : Text) (r : Response)
      (go : Text → Followed × List Text)
      → count ≤ 10
      → ((next : Text) → suc count ≤ 10 → suc count + length (go next).1 ≤ 11)
      → count + length (hop_on redirect (leb max_download_redirects count) target url r go).1 ≤ 11
  hop_on-le false count target url r go h k = omega arith
  hop_on-le true count target url r go h k = elim (Bool-cases (leb 10 count)) [
    | inl e ↦ rw e (omega arith)
    | inr e ↦ rw e (next-le target (ground arith))
  ]
    where
      next-le :
          (t : Result Text) → suc count ≤ 10 → count + length (hop_on true false t url r go).1 ≤ 11
      next-le (err x) l = omega arith
      next-le (ok next) l = omega (arith, k next l)

  follow_count :
      (hops : List Hop) (url : Text) (count : ℕ)
      → count ≤ 10
      → count + length (follow hops url count).1 ≤ 11
  unfolding follow
  follow_count [] url count h = omega arith
  follow_count (refused e ∷ hops) url count h = omega arith
  follow_count (responded r ∷ hops) url count h =
      hop_on-le (is_download_redirect r.status) count (redirect_target url r.location) url r
        (λ next. follow hops next (suc count)) h (λ next l. follow_count hops next (suc count) l)

  -- However the servers redirect, a download makes at most eleven requests.
  pub length-follow-le : (hops : List Hop) (url : Text) → length (follow hops url 0).1 ≤ 11
  length-follow-le hops url = omega (arith, follow_count hops url 0 (omega arith))

  -- `none` while an answer is awaited.
  unfoldable pub download_resource : Faults → Bool → List Hop → Text → Disk → Option Ended
  unfolding follow
  download_resource faults resume hops url d =
      let offset = resume_offset resume d.part in
      if faults.on_create_dir
      then some (finalize_sink d (err create_dir))
      else if faults.on_open
      then some (finalize_sink d (err open_file))
      else after_follow faults offset (follow hops url 0).0 (opened offset d)
