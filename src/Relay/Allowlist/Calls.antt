-- ===== src/Relay/Allowlist/Calls.antt =====
-- What the calls of a pass over the allowlist are.
use beam_sdk_public.Common.{
  ℕ, suc, ◌≡◌, refl, Bool, true, false, ◌&&◌, ◌||◌, not, Option, none, some, List, [], ◌∷◌, if_rule,
  Text, Has, inl, inr, if◌then◌else◌,
}
use beam_sdk_public.Relay.Customers.{
  RequesterStatus, waiting, approved, revoked, Requester, Customer,
}
use beam_sdk_public.Relay.Gathering.{has_status}
use beam_sdk_public.Relay.Allowlist.{
  AllowlistCall, sets, reports, AllowlistIo, is_allowed, to_allow, to_remove, Allowlisting,
  after_set, sync_requester, sync_requesters, sync_customers, sync_allowlist,
}

-- What a requester asks for: to be allowed when approved, and to be removed when revoked.
abbrev pub Asks : Requester → Bool → Type 0
Asks r true = (r.status ≡ approved) × (is_allowed r.allowlist ≡ false)
Asks r false = (r.status ≡ revoked) × (is_allowed r.allowlist ≡ true)

module _ (cs : List Customer) where
  -- A requester of one of the customers.
  abbrev pub IsListed : Requester → Type 0
  IsListed r = (c : Customer) × Has c cs × Has r c.requesters

  -- From the calls before on, each transaction is for a requester that asks for it, and each report is of the
  -- transaction just before it.
  pub data Sound (before : List AllowlistCall) : List AllowlistCall → ℕ → Type 0 where
    start : Sound before before 0
    failed :
        {h : List AllowlistCall} {n : ℕ} (r : Requester) (allow : Bool)
        → IsListed r
        → Asks r allow
        → Sound before h n
        → Sound before (sets r.address allow none ∷ h) n
    reported :
        {h : List AllowlistCall} {n : ℕ} (r : Requester) (allow : Bool) (hash : Text)
        → IsListed r
        → Asks r allow
        → Sound before h n
        → Sound before (reports r.id allow hash true ∷ sets r.address allow (some hash) ∷ h) (suc n)
    unreported :
        {h : List AllowlistCall} {n : ℕ} (r : Requester) (allow : Bool) (hash : Text)
        → IsListed r
        → Asks r allow
        → Sound before h n
        → Sound before (reports r.id allow hash false ∷ sets r.address allow (some hash) ∷ h) n

  has_status-eq : (a b : RequesterStatus) → has_status a b ≡ true → a ≡ b
  has_status-eq waiting waiting e = refl
  has_status-eq approved approved e = refl
  has_status-eq revoked revoked e = refl
  has_status-eq waiting approved e = cc
  has_status-eq waiting revoked e = cc
  has_status-eq approved waiting e = cc
  has_status-eq approved revoked e = cc
  has_status-eq revoked waiting e = cc
  has_status-eq revoked approved e = cc

  and_left : (a b : Bool) → (a && b) ≡ true → (a ≡ true) × (b ≡ true)
  and_left true true e = (refl, refl)
  and_left true false e = cc
  and_left false b e = cc

  not-true : (a : Bool) → not a ≡ true → a ≡ false
  not-true true e = cc
  not-true false e = refl

  asks_lem : (r : Requester) → not (to_allow r || to_remove r) ≡ false → Asks r (to_allow r)
  asks_lem r e = by_case (to_allow r) refl e
    where
      by_case : (b : Bool) → to_allow r ≡ b → not (b || to_remove r) ≡ false → Asks r b
      by_case true q f = let both = and_left _ _ q in (has_status-eq _ _ both.0, not-true _ both.1)
      by_case false q f =
          let both = and_left _ _ (removes (to_remove r) f) in (has_status-eq _ _ both.0, both.1)
        where
          removes : (b : Bool) → not (false || b) ≡ false → b ≡ true
          removes true f = refl
          removes false f = cc

  module _ (io : AllowlistIo) (before : List AllowlistCall) where
    abbrev IsSound : Allowlisting → Type 0
    IsSound s = Sound before s.calls s.changed

    after_set-IsSound :
        (r : Requester) (allow : Bool) (o : Option Text) (s : Allowlisting)
        → IsListed r
        → Asks r allow
        → IsSound s
        → IsSound (after_set io r allow o s)
    after_set-IsSound r allow none s m a v = failed r allow m a v
    after_set-IsSound r allow (some hash) s m a v =
        by_report (io.report_allowlist (sets r.address allow (some hash) ∷ s.calls) r.id allow hash)
      where
        by_report :
            (b : Bool)
            → Sound before
                (reports r.id allow hash b ∷ sets r.address allow (some hash) ∷ s.calls)
                (if b then suc s.changed else s.changed)
        by_report true = reported r allow hash m a v
        by_report false = unreported r allow hash m a v

    sync_requester-IsSound :
        (r : Requester) (s : Allowlisting)
        → IsListed r
        → IsSound s
        → IsSound (sync_requester io r s)
    unfolding sync_requester
    sync_requester-IsSound r s m v =
        if_rule IsSound (not (to_allow r || to_remove r)) _ _ (λ e. v)
          (λ e. after_set-IsSound r (to_allow r) _ s m (asks_lem r e) v)

    sync_requesters-IsSound :
        (rs : List Requester) (s : Allowlisting)
        → ((r : Requester) → Has r rs → IsListed r)
        → IsSound s
        → IsSound (sync_requesters io rs s)
    unfolding sync_requesters
    sync_requesters-IsSound [] s m v = v
    sync_requesters-IsSound (r ∷ rs) s m v =
        sync_requesters-IsSound rs _ (λ q i. m q (inr i))
          (sync_requester-IsSound r s (m r (inl refl)) v)

    sync_customers-IsSound :
        (ds : List Customer) (s : Allowlisting)
        → ((c : Customer) → Has c ds → Has c cs)
        → IsSound s
        → IsSound (sync_customers io ds s)
    unfolding sync_customers
    sync_customers-IsSound [] s m v = v
    sync_customers-IsSound (d ∷ ds) s m v =
        sync_customers-IsSound ds _ (λ c i. m c (inr i))
          (sync_requesters-IsSound d.requesters s (λ r i. (d, m d (inl refl), i)) v)

-- Each transaction that a pass over the allowlist sends allows an approved requester of a customer that is not
-- allowed yet, or removes a revoked one that is; each of them that is mined is reported next, under its
-- requester's id and with its hash, and no other is; and the count that is returned is the number of the
-- reports that were taken.
pub sync_allowlist-Sound :
    (io : AllowlistIo) (cs : List Customer) (before : List AllowlistCall)
    → let s = sync_allowlist io cs before in Sound cs before s.calls s.changed
unfolding sync_allowlist
sync_allowlist-Sound io cs before = sync_customers-IsSound cs io before cs _ (λ c i. i) start
