-- ===== src/Matcher/Supply/Moves.antt =====
-- internal/application/matcherapp/consumer_loop.go: loading and changing a wallet of the cache.
use order_book_vibranium.Base.{
  ℕ, ◌+◌, ◌%◌, ◌≡◌, refl, sym, ap, ◌∙◌, true, false, none, some, List, [], ◌∷◌, ◌==◌, ==_iff, ◌⊎◌,
  inl, inr, if◌then◌else◌, arith, Option-cases, Bool-cases,
}
use order_book_vibranium.Base.Int64.{full_range}
use order_book_vibranium.Base.Run.{Result, ok, err}
use order_book_vibranium.Base.Assoc.{lookup, insert, lookup-insert}
use order_book_vibranium.Order.{Uuid}
use order_book_vibranium.Wallet.{Wallet, WalletError}
use order_book_vibranium.Wallet.Supply.{Asset, units, Flows}
use order_book_vibranium.Store
use order_book_vibranium.Store.{
  Session, Faults, Action, Failure, pure, lift, when, for_each, ◌>>=◌, ◌>>◌, query, or_raise,
  counted,
}
use order_book_vibranium.Store.Reading.{get_wallet-Succeeds}
use order_book_vibranium.Store.Repositories.{any, find, owns, get_wallet}
use order_book_vibranium.Store.Transactions.{Succeeds, >>=-Succeeds}
use order_book_vibranium.Matcher.{keep_wallet, load_wallet, change_wallet}
use order_book_vibranium.Matcher.Frames.{Keeps}
use order_book_vibranium.Matcher.Supply.{Cache, Distinct, pending, pending-insert, pending-load}

-- No two entries of the cache are of one user, and each is under its user.
abbrev pub Keyed : Cache → Type 0
Keyed [] = Unit {0}
Keyed ((id, w) ∷ es) = (lookup id es ≡ none) × (w.user_id ≡ id) × Keyed es

-- The wallets of a session, and those that the batch has loaded.
abbrev pub view : Session → Cache × List Wallet
view s = (s.cache, s.db.wallets)

-- The cache holds wallets of users that have a row, each under its user.
pub record IsSound (v : Cache × List Wallet) : Type 0 where
  pub distinct : Distinct v.1
  pub keyed : Keyed v.0
  pub owned :
      (id : Uuid) (w : Wallet)
      → lookup id v.0 ≡ some w
      → (w.user_id ≡ id) × (any (owns id) v.1 ≡ true)

pub empty-IsSound : (ws : List Wallet) → Distinct ws → IsSound ([], ws)
unfolding lookup
empty-IsSound ws d = record { distinct = d; keyed = tt; owned = λ id w h. ground (arith, h) }

-- What the users hold.
abbrev pub held : Asset → Session → ℕ
held a s = pending a s.cache s.db.wallets

-- If the action succeeds, what the users hold changes by `o` out and `i` in, modulo 2 ^ 64.
abbrev pub Shifts : {A : Type 0} → Asset → ℕ → ℕ → Action A → Type 0
Shifts {A} a o i m =
    (faults : Faults) (s : Session) (x : A) (t : Session)
    → IsSound (view s)
    → Succeeds m faults s x t
    → IsSound (view t) × ((held a t + o) % full_range ≡ (held a s + i) % full_range)

module _ (a : Asset) where
  pub >>=-Shifts :
      {A B : Type 0} (o i o' i' : ℕ) (m : Action A) (f : A → Action B)
      → Shifts a o i m
      → ((x : A) → Shifts a o' i' (f x))
      → Shifts a (o + o') (i + i') (m >>= f)
  >>=-Shifts o i o' i' m f hm hf faults s y u sound h =
      let (x, t, first, second) = >>=-Succeeds m f faults s h in
      let (sound_t, e) = hm faults s x t sound first in
      let (sound_u, k) = hf x faults t y u sound_t second in (sound_u, omega (arith, e, k))

  -- An action that leaves the wallets alone.
  pub Keeps-Shifts : {A : Type 0} (m : Action A) → Keeps view m → Shifts a 0 0 m
  Keeps-Shifts m keeps faults s x t sound h =
      let same = sym (ap (λ (p : Result Failure _ × Session). view p.1) h) ∙ keeps faults s in
      (rw same sound, ap (λ (v : Cache × List Wallet). (pending a v.0 v.1 + 0) % full_range) same)

keep_Keyed :
    (id : Uuid) (w : Wallet) (cache : Cache)
    → w.user_id ≡ id
    → Keyed cache
    → Keyed (insert id w cache)
unfolding insert lookup
keep_Keyed id w [] e h = (refl, e, tt)
keep_Keyed id w ((key, old) ∷ es) e h =
    ground (arith, keep_Keyed id w es, ==_iff key id, lookup-insert id key w es)

keep-IsSound :
    (id : Uuid) (w : Wallet) (v : Cache × List Wallet)
    → IsSound v
    → w.user_id ≡ id
    → any (owns id) v.1 ≡ true
    → IsSound (insert id w v.0, v.1)
keep-IsSound id w v sound same present = record {
  distinct = sound.distinct;
  keyed = keep_Keyed id w v.0 same sound.keyed;
  owned = λ j u h. owned_lem j u (Bool-cases (id == j)) (sym (lookup-insert id j w v.0) ∙ h);
}
  where
    owned_lem :
        (j : Uuid) (u : Wallet)
        → ((id == j) ≡ true) ⊎ ((id == j) ≡ false)
        → (if id == j then some w else lookup j v.0) ≡ some u
        → (u.user_id ≡ j) × (any (owns j) v.1 ≡ true)
    owned_lem j u (inl e) h =
        let here = (==_iff id j).0 e in
        let found : some w ≡ some u = rw e at h in (ground arith, rw here at present)
    owned_lem j u (inr e) h = sound.owned j u (rw e at h)

lookup-insert_self :
    (id : Uuid) (w : Wallet) (cache : Cache) → lookup id (insert id w cache) ≡ some w
lookup-insert_self id w cache = ground (arith, lookup-insert id id w cache)

lift-Succeeds :
    {A E : Type 0} (f : E → Failure) (r : Result E A) (faults : Faults) (s : Session) {x : A}
    {t : Session}
    → Succeeds (lift f r) faults s x t
    → (r ≡ ok x) × (t ≡ s)
lift-Succeeds f (ok x) faults s h = ground (arith, h)
lift-Succeeds f (err e) faults s h = ground (arith, h)

-- What loadWallet promises.
abbrev pub Loads : Asset → Uuid → Wallet → Session → Session → Type 0
Loads a id w s t = IsSound (view t) × (held a t ≡ held a s) × (lookup id t.cache ≡ some w)

load_fresh_lem :
    (a : Asset) (id : Uuid) (faults : Faults) (s : Session) (w : Wallet) (t : Session)
    → IsSound (view s)
    → lookup id s.cache ≡ none
    → Succeeds (get_wallet id >>= λ v. keep_wallet id v >> pure v) faults s w t
    → Loads a id w s t
unfolding get_wallet keep_wallet
load_fresh_lem a id faults s w t sound new h =
    let (v, s₁, got, rest) =
      >>=-Succeeds (get_wallet id) (λ v. keep_wallet id v >> pure v) faults s h in
    let (found, after) = get_wallet-Succeeds faults id s got in
    let stored : (v ≡ w) × (t ≡ record s₁ { cache = insert id v s₁.cache }) =
      ground (arith, rest) in
    let t_is : view t ≡ (insert id w s.cache, s.db.wallets) =
      ground (arith, stored.0, stored.1, after) in
    let row : find (owns id) s.db.wallets ≡ some w = found ∙ ap some stored.0 in
    let (same, present, owner) = pending-load a id w s.cache s.db.wallets sound.distinct new row in
    (
      rw t_is (keep-IsSound id w (view s) sound owner present),
      ap (λ (p : Cache × List Wallet). pending a p.0 p.1) t_is ∙ same,
      ap (λ (p : Cache × List Wallet). lookup id p.0) t_is ∙ lookup-insert_self id w s.cache,
    )

-- loadWallet holds nothing more or less than before, and the wallet is in the cache.
pub load_wallet-Loads :
    (a : Asset) (id : Uuid) (faults : Faults) (s : Session) (w : Wallet) (t : Session)
    → IsSound (view s)
    → Succeeds (load_wallet id) faults s w t
    → Loads a id w s t
unfolding load_wallet
load_wallet-Loads a id faults s w t sound h = elim (Option-cases (lookup id s.cache)) [
  | inl e ↦ load_fresh_lem a id faults s w t sound e (rw (e, load_wallet) at h)
  | inr (v, e) ↦
      let kept : ◌≡◌ {A = Result Failure Wallet × Session} (ok v, s) (ok w, t) =
        rw (e, load_wallet) at h in
      let same : (v ≡ w) × (s ≡ t) = ground (arith, kept) in
      (
        rw (← same.1) sound,
        sym (ap (held a) same.1),
        ap (λ (u : Session). lookup id u.cache) (sym same.1) ∙ e ∙ ap some same.0,
      )
]

module _ (a : Asset) where
  pub load_wallet-Shifts : (id : Uuid) → Shifts a 0 0 (load_wallet id)
  load_wallet-Shifts id faults s w t sound h =
      let (sound_t, same, _) = load_wallet-Loads a id faults s w t sound h in
      (sound_t, omega (arith, same))

  -- A method call on a wallet changes what the users hold as it changes the wallet.
  pub change_wallet-Shifts :
      (o i : ℕ) (id : Uuid) (method : Wallet → Result WalletError Wallet)
      → ((w : Wallet) → Flows a o i w (method w))
      → Shifts a o i (change_wallet id method)
  unfolding change_wallet keep_wallet
  change_wallet-Shifts o i id method flows faults s x u sound h =
      let (w, t, loaded, rest) =
        >>=-Succeeds (load_wallet id) (λ w. lift Store.from_wallet (method w) >>= keep_wallet id)
          faults s h in
      let (sound_t, same, cached) = load_wallet-Loads a id faults s w t sound loaded in
      let (w', t', called, kept) =
        >>=-Succeeds (lift Store.from_wallet (method w)) (keep_wallet id) faults t rest in
      let (went, same_t) = lift-Succeeds Store.from_wallet (method w) faults t called in
      let (owner, flowed) : (w'.user_id ≡ w.user_id)
          × ((units a w' + o) % full_range ≡ (units a w + i) % full_range) =
        rw went at (flows w) in
      let u_is : view u ≡ (insert id w' t.cache, t.db.wallets) = ground (arith, kept, same_t) in
      let (owner_w, present) = sound_t.owned id w cached in
      let total = pending-insert a id w' t.cache w t.db.wallets sound_t.distinct present cached in
      let held_u = ap (λ (p : Cache × List Wallet). pending a p.0 p.1) u_is in
      (
        rw u_is (keep-IsSound id w' (view t) sound_t (owner ∙ owner_w) present),
        omega (arith, total, held_u, flowed, same),
      )
