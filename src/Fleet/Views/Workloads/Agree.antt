-- ===== src/Fleet/Views/Workloads/Agree.antt =====
-- The pods of a card are those at the top of the cluster's page, and their count agrees with the cell
-- beside them (internal/fleet/fleet.go, the last loop of `readWorkload`; tables.go, `unhealthyPods`).
use binnacle.Prelude.{
  ℕ, zero, suc, ◌+◌, ◌-◌, ◌≤◌, ◌≡◌, ◌≢◌, ◌↔◌, refl, Bool, List, [], ◌∷◌, ◌++◌, map, some, arith,
  length, take, keep, count_if, ap, sym, subst, ◌∙◌, length-drop, length-append, take-drop, drop,
}
use binnacle.Prelude.Sort.{sort_stable, length-sort_stable}
use binnacle.Model.{Snapshot, Pod}
use binnacle.Health.{needs_attention, warn}
use binnacle.Health.Cells.{pods_cell}
use binnacle.Fleet.Tables.{unhealthy_pods, pod_less}
use binnacle.Fleet.Tables.Sick.{unhealthy_pods-eq}
use binnacle.Fleet.Views.{ClusterView, max_card_pods}
use binnacle.Fleet.Views.Workloads.{with_pods, pod_ref}

take-take : {A : Type 0} (m n : ℕ) (xs : List A) → m ≤ n → take m (take n xs) ≡ take m xs
take-take zero n xs h = refl
take-take (suc m) zero xs h = absurd (omega (arith, h))
take-take (suc m) (suc n) [] h = refl
take-take (suc m) (suc n) (x ∷ xs) h = ap (λ ys. x ∷ ys) (take-take m n xs (omega (arith, h)))

length-take-drop :
    {A : Type 0} (n : ℕ) (xs : List A) → length (take n xs) + (length xs - n) ≡ length xs
length-take-drop n xs =
    omega
      (arith, length-drop n xs, length-append (take n xs) (drop n xs), ap length (take-drop n xs))

length-keep : {A : Type 0} (p : A → Bool) (xs : List A) → length (keep p xs) ≡ count_if p xs
length-keep p [] = refl
length-keep p (x ∷ xs) = ground (arith, length-keep p xs)

length-sorted :
    (pods : List Pod)
    → length (sort_stable pod_less (keep needs_attention pods)) ≡ count_if needs_attention pods
length-sorted pods =
    length-sort_stable pod_less (keep needs_attention pods) ∙ length-keep needs_attention pods

pods_cell-warn :
    (pods : List Pod) → (count_if needs_attention pods ≡ 0) ↔ ((pods_cell pods).status ≢ warn)
unfolding pods_cell
pods_cell-warn [] = ground arith
pods_cell-warn (p ∷ pods) = ground arith

abbrev pub IsShown : Snapshot Pod → ClusterView → List Pod × ℕ → Type 0
IsShown snap w (shown, truncated) =
    (w.top_unhealthy_pods ≡ map pod_ref (take max_card_pods shown))
    × (w.unhealthy_pods ≡ length shown + truncated)
    × ((w.unhealthy_pods ≡ 0) ↔ ((pods_cell snap.items).status ≢ warn))

-- For a card that has counted no pod yet and a page that shows at least as many as a card does: the
-- card names the pods at the top of the page, its count is that of the pods shown on the page and of
-- those it leaves out, and it is 0 exactly when the health cell of the pods is not amber.
pub with_pods_agrees :
    (snap : Snapshot Pod) (v : ClusterView) (limit : ℕ)
    → v.unhealthy_pods ≡ 0
    → v.top_unhealthy_pods ≡ []
    → max_card_pods ≤ limit
    → IsShown snap (with_pods (some snap) v) (unhealthy_pods snap.items limit)
unfolding with_pods
with_pods_agrees snap v limit none_yet no_top fits =
    let sorted = sort_stable pod_less (keep needs_attention snap.items) in
    let counted : v.unhealthy_pods + count_if needs_attention snap.items
        ≡ count_if needs_attention snap.items =
      omega (arith, none_yet) in
    subst (IsShown snap (with_pods (some snap) v)) (sym (unhealthy_pods-eq snap.items limit)) (
      ap (λ top. top ++ map pod_ref (take max_card_pods sorted)) no_top
          ∙ ap (map pod_ref) (sym (take-take max_card_pods limit sorted fits)),
      counted ∙ sym (length-sorted snap.items) ∙ sym (length-take-drop limit sorted),
      subst (λ (n : ℕ). (n ≡ 0) ↔ ((pods_cell snap.items).status ≢ warn)) (sym counted)
          (pods_cell-warn snap.items),
    )
