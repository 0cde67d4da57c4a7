-- ===== src/CommandRepo/Status/Searches.antt =====
-- Lemmas on the lifecycle for the searches for the next command and for the claims.
use device_platform.Prelude.{
  ◌≡◌, refl, Bool, true, false, String, Option, none, some, arith, if◌then◌else◌, sym, ◌∙◌,
}
use device_platform.Prelude.Table.{find, select, first_by}
use device_platform.Domain.Records.{Command, CommandAttempt}
use device_platform.Store.{Db, Tx, Result, ok, err, command_id, attempt_id, transact, ◌>>=◌, pure}
use device_platform.CommandRepo.Lock.{get, get_attempt}
use device_platform.CommandRepo.Expire.{
  expire_queued, expire_result_observation, recover_expired_dispatching,
}
use device_platform.CommandRepo.Next.{
  expire_next_queued, expire_next_result_observation, recover_next_expired_dispatching,
  is_expirable, dispatch_rank, is_observed_too_long, result_rank, is_recoverable, lease_rank,
}
use device_platform.CommandRepo.Claim.{claim_next, reclaim_attempt, ClaimRequest, ReclaimRequest}
use device_platform.CommandRepo.Status.{follows, follows_refl}
use device_platform.CommandRepo.Status.Statements.{Follows}
use device_platform.CommandRepo.Status.Deadlines.{
  expire_queued-Follows, expire_result_observation-Follows, recover_expired-Follows,
}

-- A body that writes nothing.
abbrev IsRead {ℓ} : {A : Type ℓ} → Tx A → Type 0
IsRead m = (db : Db) → (transact m db).1 ≡ db

abbrev committed {ℓ} : {A : Type ℓ} → Result A → Db → Db
committed (ok a db') db = db'
committed (err e) db = db

transact-committed {ℓ} : {A : Type ℓ} (m : Tx A) (db : Db) → (transact m db).1 ≡ committed (m db) db
unfolding transact
transact-committed m db = ground arith

abbrev next {ℓ κ} : {A : Type ℓ} {B : Type κ} → Result A → (A → Tx B) → Result B
next (ok a db') f = f a db'
next (err e) f = err e

module _ {ℓ κ} {A : Type ℓ} {B : Type κ} where
  -- Reads after the last write leave what it wrote, or undo it by an error.
  after-read :
      (j : String) (db : Db) (r : Result A) (f : A → Tx B)
      → ((a : A) → IsRead (f a))
      → follows (find command_id j db.commands) (find command_id j (committed r db).commands) ≡ true
      → follows
          (find command_id j db.commands)
          (find command_id j (committed (next r f) db).commands)
        ≡ true
  after-read j db (ok a db') f reads h = go (f a db') (transact-committed (f a) db') (reads a db')
    where
      go :
          (r : Result B)
          → (transact (f a) db').1 ≡ committed r db'
          → (transact (f a) db').1 ≡ db'
          → follows (find command_id j db.commands) (find command_id j (committed r db).commands)
            ≡ true
      go (ok b db'') e w = rw (sym e ∙ w) h
      go (err x) e w = follows_refl (find command_id j db.commands)
  after-read j db (err e) f reads h = h

  bind-next : (m : Tx A) (f : A → Tx B) (db : Db) → (m >>= f) db ≡ next (m db) f
  bind-next m f db = ground arith

  Follows-bind :
      (m : Tx A) (f : A → Tx B) → ((a : A) → IsRead (f a)) → Follows m → Follows (m >>= f)
  Follows-bind m f reads h db j = rw (transact-committed (m >>= f) db) (
      rw (bind-next m f db)
        (after-read j db (m db) f reads (rw (transact-committed m db) at (h db j))))

module _ {ℓ κ} {A : Type ℓ} {R : Type κ} (found : R → Tx A) (missed : A) where
  -- What a search does once it has found its row, or has found none.
  abbrev on_row : (Db → Option R) → Tx A
  on_row search_row db = elim (search_row db) [ none ↦ ok missed db | some r ↦ found r db ]

  on_row-Follows :
      ((r : R) → Follows (found r)) → (search_row : Db → Option R) → Follows (on_row search_row)
  on_row-Follows h search_row db j =
      rw (transact-committed (on_row search_row) db) (go (search_row db))
    where
      go :
          (o : Option R)
          → follows (find command_id j db.commands) (
              find command_id j
                (committed {A = A}
                  (elim o [ none ↦ ok missed db | some r ↦ found r db ])
                  db).commands)
            ≡ true
      go none = follows_refl (find command_id j db.commands)
      go (some r) = rw (transact-committed (found r) db) at (h r db j)

-- A guarded read after an update.
if_IsRead {ℓ} :
    {A : Type ℓ} (m k : Tx A) → IsRead m → IsRead k → (b : Bool) → IsRead (if b then m else k)
if_IsRead m k hm hk true = hm
if_IsRead m k hm hk false = hk

pure-IsRead {ℓ} : {A : Type ℓ} (a : A) → IsRead (pure a)
unfolding transact
pure-IsRead a db = refl

get-IsRead {ℓ} :
    {A : Type ℓ} (id : String) (f : Command → A) → IsRead (get id >>= (λ c. pure (f c)))
unfolding get transact
get-IsRead id f db = ground arith

-- What a search reads back after an update that affected its row.
abbrev reread_as {ℓ} : {A : Type ℓ} → String → (Command → A) → A → Bool → Tx A
reread_as id f missed updated = if updated then get id >>= (λ c. pure (f c)) else pure missed

reread_as-IsRead {ℓ} :
    {A : Type ℓ} (id : String) (f : Command → A) (missed : A) (updated : Bool)
    → IsRead (reread_as id f missed updated)
reread_as-IsRead id f missed = if_IsRead _ _ (get-IsRead id f) (pure-IsRead missed)

pub expire_next_queued-Follows : (busy : String → Bool) → Follows (expire_next_queued busy)
unfolding expire_next_queued
expire_next_queued-Follows busy =
    on_row-Follows (λ (c : Command). expire_queued c.id >>= reread_as c.id some none) none
      (λ c.
        Follows-bind (expire_queued c.id) (reread_as c.id some none)
          (reread_as-IsRead c.id some none) (expire_queued-Follows c.id))
      (λ db.
        first_by command_id dispatch_rank (select command_id (is_expirable busy db) db.commands))

pub expire_next_result-Follows :
    (busy : String → Bool) → Follows (expire_next_result_observation busy)
unfolding expire_next_result_observation
expire_next_result-Follows busy =
    on_row-Follows
      (λ (c : Command).
        expire_result_observation c.id >>= reread_as c.id (λ d. some (d, c.status)) none)
      none
      (λ c.
        Follows-bind (expire_result_observation c.id)
          (reread_as c.id (λ d. some (d, c.status)) none)
          (reread_as-IsRead c.id (λ d. some (d, c.status)) none)
          (expire_result_observation-Follows c.id))
      (λ db.
        first_by command_id result_rank
          (select command_id (is_observed_too_long busy db) db.commands))

abbrev reread_both : CommandAttempt → Bool → Tx (Option (Command × CommandAttempt))
reread_both a updated =
    if updated
    then get a.command_id >>= (λ c. get_attempt a.id >>= (λ b. pure (some (c, b))))
    else pure none

reread_both-IsRead : (a : CommandAttempt) (updated : Bool) → IsRead (reread_both a updated)
unfolding get get_attempt transact
reread_both-IsRead a true db = ground arith
reread_both-IsRead a false db = refl

pub recover_next-Follows : (busy : String → Bool) → Follows (recover_next_expired_dispatching busy)
unfolding recover_next_expired_dispatching
recover_next-Follows busy =
    on_row-Follows
      (λ (a : CommandAttempt).
        recover_expired_dispatching a.command_id a.id a.lease_token >>= reread_both a)
      none
      (λ a.
        Follows-bind (recover_expired_dispatching a.command_id a.id a.lease_token) (reread_both a)
          (reread_both-IsRead a) (recover_expired-Follows a.command_id a.id a.lease_token))
      (λ db.
        first_by attempt_id lease_rank (select attempt_id (is_recoverable busy db) db.attempts))

pub claim_next-Follows :
    (busy : String → Bool) (aid : String) (r : ClaimRequest) → Follows (claim_next busy aid r)
unfolding claim_next transact
claim_next-Follows busy aid r db j = ground (arith, follows_refl (find command_id j db.commands))

pub reclaim_attempt-Follows :
    (aid expired : String) (r : ReclaimRequest) → Follows (reclaim_attempt aid expired r)
unfolding reclaim_attempt transact
reclaim_attempt-Follows aid expired r db j =
    ground (arith, follows_refl (find command_id j db.commands))
