-- ===== src/Identity/Repository/Transactions/Atomic.antt =====
-- A transaction that fails changes no table.
use flowspace_api.Base.{◌≡◌, arith, subst, ap, sym, ◌∙◌}
use flowspace_api.Identity.Errors.{Err}
use flowspace_api.Identity.Run.{Env, World, Transaction, M, Outcome, ok, err, tick}
use flowspace_api.Identity.Run.Laws.{bind-ok, pure-ok, query-ok}
use flowspace_api.Identity.Repository.Transactions.{
  roll_back, within_transaction, transact, get_transaction, commit_transaction,
  within_reauthentication_transaction, new_transaction, open_transaction,
}
use flowspace_api.Identity.Statements.Limits.{plain_statement}
use flowspace_api.Identity.Domain.Reauthentication.{ReauthenticationWindow}

-- Whatever the body does, and at whichever statement it fails, the commit included, an error leaves
-- all tables as they were.
pub within_transaction-rolls_back :
    {A : Type 0} (body : M A) (e : Env) (w v : World) (x : Err)
    → within_transaction body e w ≡ err x v
    → v.db ≡ w.db
unfolding within_transaction
within_transaction-rolls_back body e w v x h = ground arith

rolled_value :
    {A : Type 0} (w : World) (o : Outcome A) {a : A} {v : World}
    → roll_back w o ≡ ok a v
    → o ≡ ok a v
rolled_value w (ok b u) h = h
rolled_value w (err x u) h = absurd (ground arith)

get_transaction-ok :
    (e : Env) (w v : World) {t : Transaction}
    → get_transaction e w ≡ ok t v
    → (t ≡ w.transaction) × (v ≡ w)
unfolding get_transaction
get_transaction-ok e w v h = ground arith

-- The world in which the body of a transaction starts.
abbrev pub begun : World → World
begun w = record (tick w) { transaction = new_transaction }

begins :
    (e : Env) (w w1 w2 : World) (c d : Unit {0})
    → plain_statement e w ≡ ok c w1
    → open_transaction e w1 ≡ ok d w2
    → w2 ≡ begun w
unfolding plain_statement open_transaction
begins e w w1 w2 c d h k =
    sym (pure-ok k).1
    ∙ ap {A = World} {B = World} (λ x. record x { transaction = new_transaction })
        (query-ok _ e w h).1

-- A transaction that succeeds ran its body to that value, and then committed.
pub within_transaction-commits :
    {A : Type 0} (body : M A) (e : Env) (w v : World) {a : A}
    → within_transaction body e w ≡ ok a v
    → (after : World) × (u : Unit {0}) × (body e (begun w) ≡ ok a after)
      × (commit_transaction after.transaction e after ≡ ok u v)
unfolding within_transaction transact
within_transaction-commits body e w v {a} h =
    let r = rolled_value w (transact body e w) h in
    let (c, w1, r1, h1) = bind-ok _ _ e w r in
    let (d, w2, r2, h2) = bind-ok _ _ e w1 h1 in
    let (value, w3, r3, h3) = bind-ok _ _ e w2 h2 in
    let (t, w4, r4, h4) = bind-ok _ _ e w3 h3 in
    let (u, w5, r5, h5) = bind-ok _ _ e w4 h4 in
    let (same_t, same_w) = get_transaction-ok e w3 w4 r4 in
    let (same_value, last) = pure-ok h5 in
    (
      w3,
      u,
      subst (λ x. body e x ≡ ok a w3) (begins e w w1 w2 c d r1 r2)
          (subst (λ x. body e w2 ≡ ok x w3) same_value r3),
      subst (λ x. commit_transaction w3.transaction e w3 ≡ ok u x) last
          (subst (λ x. commit_transaction x e w3 ≡ ok u w5) same_t
            (subst (λ x. commit_transaction t e x ≡ ok u w5) same_w r5)),
    )

-- A transaction that succeeds ran its body to that value.
pub within_transaction-ok :
    {A : Type 0} (body : M A) (e : Env) (w v : World) {a : A}
    → within_transaction body e w ≡ ok a v
    → (after : World) × (body e (begun w) ≡ ok a after)
within_transaction-ok body e w v h =
    let (after, u, r, c) = within_transaction-commits body e w v h in (after, r)

-- One that reads the window after its commit also committed.
pub within_reauthentication_transaction-commits :
    {A : Type 0} (body : M A) (e : Env) (w v : World) {a : A} {window : ReauthenticationWindow}
    → within_reauthentication_transaction body e w ≡ ok (a, window) v
    → (after last : World) × (u : Unit {0}) × (body e (begun w) ≡ ok a after)
      × (commit_transaction after.transaction e after ≡ ok u last)
unfolding within_reauthentication_transaction
within_reauthentication_transaction-commits body e w v {a} h =
    let (value, w1, r1, h1) = bind-ok _ _ e w h in
    let (t, w2, r2, h2) = bind-ok _ _ e w1 h1 in
    let (window, w3, r3, h3) = bind-ok _ _ e w2 h2 in
    let (after, u, run, committed) =
      within_transaction-commits body e w w1
        (subst (λ x. within_transaction body e w ≡ ok x w1) (ap (λ p. p.0) (pure-ok h3).0) r1) in
    (after, w1, u, run, committed)
