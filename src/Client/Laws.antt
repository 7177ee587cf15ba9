-- ===== src/Client/Laws.antt =====
-- How the calls of frontend/src/api/client.ts end: every failure is the client's own error, the timer of
-- a request does not outlive it, and an upload's promise is settled by its events.
use distributed_file_storage.Prelude.{
  ℕ, ◌≡◌, refl, ◌∙◌, ap, Bool, true, false, not, ◌&&◌, ◌||◌, Option, none, some, is_some, List, [],
  ◌∷◌, All, filter, inl, inr, ◌⊎◌, leb, ltb, if◌then◌else◌, ◌==◌, str_eq,
}
use distributed_file_storage.Api.{
  UploadFileResponse, ApiClientError, Thrown, api, error, other, Outcome, resolved, rejected,
}
use distributed_file_storage.Runtime.{Runtime, Timer}
use distributed_file_storage.Client.{
  Response, Sent, caught, answered, request_error, finish_request,
}
use distributed_file_storage.Client.Upload.{
  Upload, XhrEvent, Promise, Progress, progress, load, failed, timeout, report, first_settled,
  percent_of, on_load, handle, handle_all, settle,
}

-- A payload, or an error of the client.
abbrev pub EndsAsApi : {T : Type 0} → Outcome T → Type 0
EndsAsApi {T} o = ((x : T) × (o ≡ resolved x)) ⊎ ((e : ApiClientError) × (o ≡ rejected (api e)))

either_api :
    (b : Bool) (e e' : ApiClientError)
    → (x : ApiClientError) × ((if b then api e else api e') ≡ api x)
either_api true e e' = (e, refl)
either_api false e e' = (e', refl)

request_error-IsApi :
    (sent : Sent) (err : Thrown) → (e : ApiClientError) × (request_error sent err ≡ api e)
unfolding request_error
request_error-IsApi sent (api e) = (e, refl)
request_error-IsApi sent (error name message) = either_api (str_eq name "AbortError") _ _
request_error-IsApi sent other = (_, refl)

caught-EndsAsApi :
    {T : Type 0} (f : Thrown → Thrown) (o : Outcome T)
    → ((err : Thrown) → (e : ApiClientError) × (f err ≡ api e))
    → EndsAsApi (caught f o)
caught-EndsAsApi f (resolved x) h = inl (x, refl)
caught-EndsAsApi f (rejected err) h = inr ((h err).0, ap rejected (h err).1)

-- A property of a conditional, from the property of its branches.
if-cases :
    {A : Type 0} (P : A → Type 0) (b : Bool) (x y : A)
    → (b ≡ true → P x)
    → (b ≡ false → P y)
    → P (if b then x else y)
if-cases P true x y h k = h refl
if-cases P false x y h k = k refl

-- A conditional beside a disjunction on the same test.
if-branches :
    {A : Type 0} (P : A → Bool → Type 0) (b : Bool) (x y : A) (c : Bool)
    → P x true
    → P y c
    → P (if b then x else y) (b || c)
if-branches P true x y c h k = h
if-branches P false x y c h k = k

not-true : (b : Bool) → not b ≡ true → b ≡ false
not-true true h = cc
not-true false h = refl

clear_timeout-gone :
    (id : ℕ) (ts : List Timer) → All (λ t. (t.id == id) ≡ false) (filter (λ t. not (t.id == id)) ts)
clear_timeout-gone id [] = tt
clear_timeout-gone id (t ∷ ts) =
    let rest = filter (λ x. not (x.id == id)) ts in
    let gone = clear_timeout-gone id ts in
    if-cases (λ l. All (λ x. (x.id == id) ≡ false) l) (not (t.id == id)) (t ∷ rest) rest
      (λ kept. (not-true (t.id == id) kept, gone)) (λ _. gone)

-- However the call of `fetch` ends, a request ends with the payload or with an error of the client, never
-- with a bare one, and its timer is no longer set.
pub request-EndsAsApi :
    {R : Type 0} {T : Type 0} (sent : Sent) (reply : Outcome (Response T)) (rt : Runtime R)
    → let (outcome, rt') = finish_request sent reply rt in
      EndsAsApi outcome × All (λ t. (t.id == sent.timer) ≡ false) rt'.timers
unfolding finish_request
request-EndsAsApi sent reply rt = (
  caught-EndsAsApi (request_error sent) (answered sent.url reply) (request_error-IsApi sent),
  clear_timeout-gone sent.timer rt.timers,
)

-- Whether an event settles the promise.
unfoldable pub settles : XhrEvent → Bool
settles (progress computable loaded total) = false
settles (load status body) = leb 200 status && ltb status 300
settles failed = true
settles timeout = true

unfoldable pub any_settles : List XhrEvent → Bool
unfolding settles
any_settles [] = false
any_settles (e ∷ es) = settles e || any_settles es

first_settled-some :
    (o : Outcome UploadFileResponse) (v : Option (Outcome UploadFileResponse))
    → is_some (first_settled o v) ≡ true
first_settled-some o none = refl
first_settled-some o (some x) = refl

report-settled : (u : Upload) (c : Progress) (p : Promise) → (report u c p).settled ≡ p.settled
report-settled u c p =
    if-cases (λ q. q.settled ≡ p.settled) u.on_progress _ p (λ _. refl) (λ _. refl)

handle-settled :
    (u : Upload) (e : XhrEvent) (p : Promise)
    → is_some (handle u e p).settled ≡ (settles e || is_some p.settled)
unfolding handle settles on_load settle
handle-settled u (progress computable loaded total) p =
    if-cases (λ q. is_some q.settled ≡ is_some p.settled) computable _ p
      (λ _. ap is_some (report-settled u (percent_of loaded total, loaded, total) p)) (λ _. refl)
handle-settled u (load status body) p =
    if-branches (λ q b. is_some q.settled ≡ b) (leb 200 status && ltb status 300) _ p
      (is_some p.settled) (first_settled-some _ _) refl
handle-settled u failed p = first_settled-some _ p.settled
handle-settled u timeout p = first_settled-some _ p.settled

or_swap : (a b c : Bool) → ((b || a) || c) ≡ (a || (b || c))
or_swap true true c = refl
or_swap true false c = refl
or_swap false true c = refl
or_swap false false c = refl

or_none : (a : Bool) → a ≡ (a || false)
or_none true = refl
or_none false = refl

-- From any state of the promise, a run of the events leaves it settled exactly if it was settled or some
-- event settles it: a network error, a timeout, or an answer whose status is a success. An answer with any
-- other status leaves a pending promise pending.
pub upload_settles_iff :
    (u : Upload) (es : List XhrEvent) (p : Promise)
    → is_some (handle_all u es p).settled ≡ (is_some p.settled || any_settles es)
unfolding handle_all any_settles
upload_settles_iff u [] p = or_none (is_some p.settled)
upload_settles_iff u (e ∷ es) p =
    upload_settles_iff u es (handle u e p)
    ∙ ap (λ b. b || any_settles es) (handle-settled u e p)
    ∙ or_swap (is_some p.settled) (settles e) (any_settles es)

first_settled-keeps :
    (o x : Outcome UploadFileResponse) (v : Option (Outcome UploadFileResponse))
    → v ≡ some x
    → first_settled o v ≡ some x
first_settled-keeps o x none h = cc
first_settled-keeps o x (some y) h = h

handle-keeps :
    (u : Upload) (e : XhrEvent) (p : Promise) (o : Outcome UploadFileResponse)
    → p.settled ≡ some o
    → (handle u e p).settled ≡ some o
unfolding handle on_load settle
handle-keeps u (progress computable loaded total) p o h =
    if-cases (λ q. q.settled ≡ some o) computable _ p
      (λ _. report-settled u (percent_of loaded total, loaded, total) p ∙ h) (λ _. h)
handle-keeps u (load status body) p o h =
    if-cases (λ q. q.settled ≡ some o) (leb 200 status && ltb status 300) _ p
      (λ _.
        first_settled-keeps _ o _
          (first_settled-keeps _ o _ (report-settled u (100, u.size, u.size) p ∙ h)))
      (λ _. h)
handle-keeps u failed p o h = first_settled-keeps _ o p.settled h
handle-keeps u timeout p o h = first_settled-keeps _ o p.settled h

-- How an upload's promise is settled is final: no later event changes it.
pub upload_settled_once :
    (u : Upload) (es : List XhrEvent) (p : Promise) (o : Outcome UploadFileResponse)
    → p.settled ≡ some o
    → (handle_all u es p).settled ≡ some o
unfolding handle_all
upload_settled_once u [] p o h = h
upload_settled_once u (e ∷ es) p o h =
    upload_settled_once u es (handle u e p) o (handle-keeps u e p o h)
