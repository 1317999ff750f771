-- ===== src/Helm/Output/ClusterId.antt =====
-- `_get_namespace_cluster_id` of n2vc/k8s_helm_conn.py.
use n2vc.Prelude.{◌≡◌, refl, none, some, [], ◌∷◌, ◌++◌, arith}
use n2vc.Text.{Text}
use n2vc.Text.Split.{Lacks}
use n2vc.Helm.Output.{last_colon, get_namespace_cluster_id}

last_colon-Lacks : (s : Text) → Lacks b':' s → last_colon s ≡ none
unfolding last_colon
last_colon-Lacks [] h = refl
last_colon-Lacks (c ∷ s) h = rw (last_colon-Lacks s h.1) (ground (arith, h.0))

last_colon-append :
    (namespace cluster_id : Text)
    → Lacks b':' cluster_id
    → last_colon (namespace ++ b':' ∷ cluster_id) ≡ some (namespace, cluster_id)
unfolding last_colon
last_colon-append [] cluster_id h = rw (last_colon-Lacks cluster_id h)
last_colon-append (c ∷ s) cluster_id h = rw (last_colon-append s cluster_id h)

-- "<namespace>:<cluster id>" is taken apart at its last colon: both parts come back, where the
-- cluster id holds no colon. The namespace may hold some.
get_namespace_cluster_id_lem :
    (namespace cluster_id : Text)
    → Lacks b':' cluster_id
    → get_namespace_cluster_id (namespace ++ b':' ∷ cluster_id) ≡ (namespace, cluster_id)
unfolding get_namespace_cluster_id
get_namespace_cluster_id_lem namespace cluster_id h = rw (last_colon-append namespace cluster_id h)
