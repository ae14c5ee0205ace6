-- ===== src/OmsLive/Reconciler/Convergence.antt =====
-- services/oms-live/src/oms_live/reconciler.py: what the comparison classifies, and what an import does
-- to the next one.
use roboinvest.Prelude.{
  ◌≡◌, refl, ap, ◌∙◌, ℕ, ◌+◌, Bool, false, true, not, ◌&&◌, ◌||◌, Option, none, some, is_some, List,
  [], ◌∷◌, ◌++◌, String, str_eq, eq_iff, keep_if, length, arith,
}
use roboinvest.Contracts.Enums.{TradingStyle}
use roboinvest.Contracts.Time.{DateTime}
use roboinvest.OmsLive.Models.{LivePosition}
use roboinvest.OmsLive.Reconciler.{
  KabuPositionSnapshot, ReconcileActions, has, get, put, put_all, by_symbol, kabu_symbol,
  live_symbol, classify, classify_all, compute_position_diff, import_all, apply_reconcile_actions,
  build_imported_position,
}

str_eq_lem : (a b : String) → str_eq a b ≡ true → a ≡ b
str_eq_lem a b h = (eq_iff a b).0 h

-- equal strings are equal to the same strings
str_eq-same : (s a b : String) → str_eq a b ≡ true → str_eq s a ≡ str_eq s b
str_eq-same s a b h = ap (str_eq s) (str_eq_lem a b h)

keep-same : (keep : String → Bool) (a b : String) → str_eq a b ≡ true → keep a ≡ keep b
keep-same keep a b h = ap keep (str_eq_lem a b h)

same_self : (a : String) → str_eq a a ≡ true
same_self a = (eq_iff a a).1 refl

module _ {A : Type 0} (symbol_of : A → String) where
  has-put :
      (s : String) (p : A) (d : List A)
      → has symbol_of s (put symbol_of p d) ≡ (str_eq s (symbol_of p) || has symbol_of s d)
  has-put s p [] = refl
  has-put s p (q ∷ rest) =
      ground (arith, has-put s p rest, str_eq-same s (symbol_of p) (symbol_of q))

  has-put_all :
      (s : String) (xs d : List A)
      → has symbol_of s (put_all symbol_of xs d) ≡ (has symbol_of s xs || has symbol_of s d)
  has-put_all s [] d = refl
  has-put_all s (x ∷ xs) d = ground (arith, has-put_all s xs (put symbol_of x d), has-put s x d)

  has-by_symbol :
      (s : String) (xs : List A) → has symbol_of s (by_symbol symbol_of xs) ≡ has symbol_of s xs
  has-by_symbol s xs = ground (arith, has-put_all s xs [])

  is_some-get : (s : String) (d : List A) → is_some (get symbol_of s d) ≡ has symbol_of s d
  is_some-get s [] = refl
  is_some-get s (q ∷ rest) = ground (arith, is_some-get s rest)

  has-append :
      (s : String) (xs ys : List A)
      → has symbol_of s (xs ++ ys) ≡ (has symbol_of s xs || has symbol_of s ys)
  has-append s [] ys = refl
  has-append s (x ∷ xs) ys = ground (arith, has-append s xs ys)

  has-keep_if :
      (s : String) (keep : String → Bool) (xs : List A)
      → has symbol_of s (keep_if (λ x. keep (symbol_of x)) xs) ≡ (has symbol_of s xs && keep s)
  has-keep_if s keep [] = refl
  has-keep_if s keep (x ∷ xs) =
      ground (arith, has-keep_if s keep xs, keep-same keep s (symbol_of x))

  -- a list that has no symbol is empty
  empty_of_has : (xs : List A) → ((s : String) → has symbol_of s xs ≡ false) → xs ≡ []
  empty_of_has [] none_has = refl
  empty_of_has (x ∷ xs) none_has = ground (arith, none_has (symbol_of x), same_self (symbol_of x))

-- the lists of actions by symbol
has-classify :
    (s : String) (kabu : KabuPositionSnapshot) (found : Option LivePosition)
    (actions : ReconcileActions)
    → has kabu_symbol s (classify kabu found actions).to_import
      ≡ (str_eq s kabu.symbol && not (is_some found) || has kabu_symbol s actions.to_import)
has-classify s kabu none actions = ground arith
has-classify s kabu (some sup) actions = ground arith

has-classify_all :
    (s : String) (sup orphans : List LivePosition) (kabu : List KabuPositionSnapshot)
    → has kabu_symbol s (classify_all sup orphans kabu).to_import
      ≡ (has kabu_symbol s kabu && not (has live_symbol s sup))
has-classify_all s sup orphans [] = refl
has-classify_all s sup orphans (k ∷ rest) = ground (
  arith,
  has-classify s k (get live_symbol k.symbol sup) (classify_all sup orphans rest),
  has-classify_all s sup orphans rest,
  is_some-get live_symbol k.symbol sup,
  keep-same (λ t. has live_symbol t sup) s k.symbol,
)

orphans-classify :
    (kabu : KabuPositionSnapshot) (found : Option LivePosition) (actions : ReconcileActions)
    → (classify kabu found actions).supabase_orphans ≡ actions.supabase_orphans
orphans-classify kabu none actions = refl
orphans-classify kabu (some sup) actions = ground arith

orphans-classify_all :
    (sup orphans : List LivePosition) (kabu : List KabuPositionSnapshot)
    → (classify_all sup orphans kabu).supabase_orphans ≡ orphans
orphans-classify_all sup orphans [] = refl
orphans-classify_all sup orphans (k ∷ rest) =
    orphans-classify k (get live_symbol k.symbol sup) (classify_all sup orphans rest)
    ∙ orphans-classify_all sup orphans rest

abbrev pub classified : ReconcileActions → ℕ
classified actions =
    length actions.to_import + length actions.quantity_mismatches + length actions.matched

classified-classify :
    (kabu : KabuPositionSnapshot) (found : Option LivePosition) (actions : ReconcileActions)
    → classified (classify kabu found actions) ≡ classified actions + 1
classified-classify kabu none actions = omega arith
classified-classify kabu (some sup) actions = ground arith

classified-classify_all :
    (sup orphans : List LivePosition) (kabu : List KabuPositionSnapshot)
    → classified (classify_all sup orphans kabu) ≡ length kabu
classified-classify_all sup orphans [] = refl
classified-classify_all sup orphans (k ∷ rest) = omega (
  arith,
  classified-classify k (get live_symbol k.symbol sup) (classify_all sup orphans rest),
  classified-classify_all sup orphans rest,
)

has-import_all :
    (s : String) (now : DateTime) (h : TradingStyle) (l : List KabuPositionSnapshot)
    → has live_symbol s (import_all now h l) ≡ has kabu_symbol s l
unfolding import_all build_imported_position
has-import_all s now h [] = refl
has-import_all s now h (k ∷ rest) = ground (arith, has-import_all s now h rest)

imports_lem :
    (s : String) (kabu : List KabuPositionSnapshot) (sup : List LivePosition)
    → has kabu_symbol s (compute_position_diff kabu sup).to_import
      ≡ (has kabu_symbol s kabu && not (has live_symbol s sup))
unfolding compute_position_diff
imports_lem s kabu sup =
    has-classify_all s (by_symbol live_symbol sup) _ (by_symbol kabu_symbol kabu)
    ∙ rw (has-by_symbol kabu_symbol s kabu, has-by_symbol live_symbol s sup)

orphans_lem :
    (s : String) (kabu : List KabuPositionSnapshot) (sup : List LivePosition)
    → has live_symbol s (compute_position_diff kabu sup).supabase_orphans
      ≡ (has live_symbol s sup && not (has kabu_symbol s kabu))
unfolding compute_position_diff
orphans_lem s kabu sup =
    ap (has live_symbol s)
      (orphans-classify_all (by_symbol live_symbol sup) _ (by_symbol kabu_symbol kabu))
    ∙ has-keep_if live_symbol s (λ t. not (has kabu_symbol t (by_symbol kabu_symbol kabu)))
        (by_symbol live_symbol sup)
    ∙ rw (has-by_symbol kabu_symbol s kabu, has-by_symbol live_symbol s sup)

-- The comparison wants to import exactly the symbols that the broker has and the database has not, reports
-- as orphans exactly those that only the database has; its imports, mismatches and matches together are
-- as many as the broker has different symbols.
pub compute_position_diff-classifies :
    (s : String) (kabu : List KabuPositionSnapshot) (sup : List LivePosition)
    → (has kabu_symbol s (compute_position_diff kabu sup).to_import
        ≡ (has kabu_symbol s kabu && not (has live_symbol s sup)))
      × (has live_symbol s (compute_position_diff kabu sup).supabase_orphans
          ≡ (has live_symbol s sup && not (has kabu_symbol s kabu)))
      × (classified (compute_position_diff kabu sup) ≡ length (by_symbol kabu_symbol kabu))
unfolding compute_position_diff
compute_position_diff-classifies s kabu sup = (
  imports_lem s kabu sup,
  orphans_lem s kabu sup,
  classified-classify_all (by_symbol live_symbol sup) _ (by_symbol kabu_symbol kabu),
)

-- After the imports have been applied, a second comparison with the same positions of the broker finds
-- nothing to import, and the same symbols as orphans.
pub compute_position_diff-converges :
    (s : String) (kabu : List KabuPositionSnapshot) (sup : List LivePosition) (now : DateTime)
    (h : TradingStyle)
    → let inserted = apply_reconcile_actions (compute_position_diff kabu sup) now true h in
      let second = compute_position_diff kabu (sup ++ inserted) in
      (second.to_import ≡ [])
      × (has live_symbol s second.supabase_orphans
          ≡ has live_symbol s (compute_position_diff kabu sup).supabase_orphans)
unfolding apply_reconcile_actions
compute_position_diff-converges s kabu sup now h =
    let found = (compute_position_diff kabu sup).to_import in
    let inserted = import_all now h found in
    (
      empty_of_has kabu_symbol _ (λ t. ground (
        arith,
        imports_lem t kabu (sup ++ inserted),
        has-append live_symbol t sup inserted,
        has-import_all t now h found,
        imports_lem t kabu sup,
      )),
      ground (
        arith,
        orphans_lem s kabu (sup ++ inserted),
        orphans_lem s kabu sup,
        has-append live_symbol s sup inserted,
        has-import_all s now h found,
        imports_lem s kabu sup,
      ),
    )
