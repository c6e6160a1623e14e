-- ===== src/ClusterShape/Clean.antt =====
-- When `compare_shapes` of cli/src/domain/cluster_shape.rs reports nothing.
use catallaxy.Prelude.{
  ℕ, ◌≡◌, ◌↔◌, refl, Bool, true, false, inl, inr, List, [], ◌∷◌, ◌++◌, String, ◌<>◌, subst, sym,
  ◌≢◌, join, ◌==◌, eq_iff, eqb_iff, arith, All, Bool-cases,
}
use catallaxy.ClusterShape.{ClusterShape, ClusterSpec, K3dConfig, k3d, shape_of}
use catallaxy.ClusterShape.Report.{Field, is_drifted, drifted_fields, is_clean}
use catallaxy.ClusterShape.Compare.{
  texts, numbers, flags, verdict_of, show_opt, show_list, common_fields, k3d_fields, compare_shapes,
}

abbrev pub IsSettled : Field → Type 0
IsSettled f = is_drifted f.verdict ≡ false

pub is_clean-IsSettled : (fields : List Field) → (is_clean fields ≡ true) ↔ All IsSettled fields
unfolding is_clean drifted_fields
is_clean-IsSettled [] = (λ h. tt, λ h. refl)
is_clean-IsSettled (f ∷ fields) = ground (arith, is_clean-IsSettled fields)

pub All-both : (P : Field → Type 0) (xs ys : List Field) → All P (xs ++ ys) ↔ (All P xs × All P ys)
All-both P [] ys = (λ h. (tt, h), λ h. h.1)
All-both P (x ∷ xs) ys =
    let rest = All-both P xs ys in
    (λ h. ((h.0, (rest.0 h.1).0), (rest.0 h.1).1), λ h. (h.0.0, rest.1 (h.0.1, h.1)))

-- What every provisioner builds a cluster from.
pub record SameCommon (declared recorded : ClusterShape) : Type 0 where
  pub provisioner : declared.provisioner ≡ recorded.provisioner
  pub control_planes : declared.control_planes ≡ recorded.control_planes
  pub workers : declared.workers ≡ recorded.workers
  pub distribution : declared.distribution ≡ recorded.distribution
  pub version : declared.version ≡ recorded.version
  pub pod_subnet : declared.pod_subnet ≡ recorded.pod_subnet
  pub service_subnet : declared.service_subnet ≡ recorded.service_subnet

-- What k3d builds a cluster from; texts that may be unset and lists are compared as shown.
pub record SameK3d (declared recorded : ClusterShape) : Type 0 where
  pub image : show_opt declared.image ≡ show_opt recorded.image
  pub network : show_opt declared.network ≡ show_opt recorded.network
  pub no_traefik : declared.no_traefik ≡ recorded.no_traefik
  pub no_service_lb : declared.no_service_lb ≡ recorded.no_service_lb
  pub no_flannel : declared.no_flannel ≡ recorded.no_flannel
  pub no_local_storage : declared.no_local_storage ≡ recorded.no_local_storage
  pub ports : show_list declared.ports ≡ show_list recorded.ports
  pub extra_api_server_args :
      show_list declared.extra_api_server_args ≡ show_list recorded.extra_api_server_args
  pub extra_volumes : show_list declared.extra_volumes ≡ show_list recorded.extra_volumes
  pub auto_deploy_manifests :
      show_list declared.auto_deploy_manifests ≡ show_list recorded.auto_deploy_manifests

pub text_settled : (s t : String) → (is_drifted (verdict_of texts s t) ≡ false) ↔ (s ≡ t)
text_settled s t = ground (arith, eq_iff s t)

pub number_settled : (m n : ℕ) → (is_drifted (verdict_of numbers m n) ≡ false) ↔ (m ≡ n)
number_settled m n = ground (arith, eqb_iff m n)

flag_settled : (a b : Bool) → (is_drifted (verdict_of flags a b) ≡ false) ↔ (a ≡ b)
flag_settled a b = ground arith

module _ (d r : ClusterShape) where
  pub common_fields-SameCommon : All IsSettled (common_fields d r) ↔ SameCommon d r
  unfolding common_fields
  common_fields-SameCommon = (
    λ (h₁, (h₂, (h₃, (h₄, (h₅, (h₆, (h₇, h₈))))))). record {
      provisioner = (text_settled d.provisioner r.provisioner).0 h₁;
      control_planes = (number_settled d.control_planes r.control_planes).0 h₂;
      workers = (number_settled d.workers r.workers).0 h₃;
      distribution = (text_settled d.distribution r.distribution).0 h₄;
      version = (text_settled d.version r.version).0 h₅;
      pod_subnet = (text_settled d.pod_subnet r.pod_subnet).0 h₆;
      service_subnet = (text_settled d.service_subnet r.service_subnet).0 h₇;
    },
    λ s. (
      (text_settled d.provisioner r.provisioner).1 s.provisioner,
      (
        (number_settled d.control_planes r.control_planes).1 s.control_planes,
        (
          (number_settled d.workers r.workers).1 s.workers,
          (
            (text_settled d.distribution r.distribution).1 s.distribution,
            (
              (text_settled d.version r.version).1 s.version,
              (
                (text_settled d.pod_subnet r.pod_subnet).1 s.pod_subnet,
                ((text_settled d.service_subnet r.service_subnet).1 s.service_subnet, tt),
              ),
            ),
          ),
        ),
      ),
    ),
  )

  k3d_settled : All IsSettled (k3d_fields d r) → SameK3d d r
  unfolding k3d_fields
  k3d_settled (h₁, (h₂, (h₃, (h₄, (h₅, (h₆, (h₇, (h₈, (h₉, (h₁₀, h₁₁)))))))))) = record {
    image = (text_settled _ _).0 h₁;
    network = (text_settled _ _).0 h₂;
    no_traefik = (flag_settled d.no_traefik r.no_traefik).0 h₃;
    no_service_lb = (flag_settled d.no_service_lb r.no_service_lb).0 h₄;
    no_flannel = (flag_settled d.no_flannel r.no_flannel).0 h₅;
    no_local_storage = (flag_settled d.no_local_storage r.no_local_storage).0 h₆;
    ports = (text_settled (show_list d.ports) (show_list r.ports)).0 h₇;
    extra_api_server_args =
        (text_settled (show_list d.extra_api_server_args) (show_list r.extra_api_server_args)).0 h₈;
    extra_volumes = (text_settled (show_list d.extra_volumes) (show_list r.extra_volumes)).0 h₉;
    auto_deploy_manifests =
        (text_settled (show_list d.auto_deploy_manifests) (show_list r.auto_deploy_manifests)).0
          h₁₀;
  }

  k3d_settles : SameK3d d r → All IsSettled (k3d_fields d r)
  unfolding k3d_fields
  k3d_settles s = (
    (text_settled (show_opt d.image) (show_opt r.image)).1 s.image,
    (
      (text_settled (show_opt d.network) (show_opt r.network)).1 s.network,
      (
        (flag_settled d.no_traefik r.no_traefik).1 s.no_traefik,
        (
          (flag_settled d.no_service_lb r.no_service_lb).1 s.no_service_lb,
          (
            (flag_settled d.no_flannel r.no_flannel).1 s.no_flannel,
            (
              (flag_settled d.no_local_storage r.no_local_storage).1 s.no_local_storage,
              (
                (text_settled (show_list d.ports) (show_list r.ports)).1 s.ports,
                (
                  (text_settled (show_list d.extra_api_server_args)
                        (show_list r.extra_api_server_args)).1
                      s.extra_api_server_args,
                  (
                    (text_settled (show_list d.extra_volumes) (show_list r.extra_volumes)).1
                        s.extra_volumes,
                    (
                      (text_settled (show_list d.auto_deploy_manifests)
                            (show_list r.auto_deploy_manifests)).1
                          s.auto_deploy_manifests,
                      tt,
                    ),
                  ),
                ),
              ),
            ),
          ),
        ),
      ),
    ),
  )

  pub compare_shapes-IsSettled :
      All IsSettled (compare_shapes d r) ↔ (SameCommon d r × (d.provisioner ≡ "k3d" → SameK3d d r))
  unfolding compare_shapes
  compare_shapes-IsSettled = elim (Bool-cases (d.provisioner == "k3d")) [
    | inl same ↦
        let is_k3d = (eq_iff d.provisioner "k3d").0 same in
        let both = All-both IsSettled (common_fields d r) (k3d_fields d r) in
        rw (same, compare_shapes)
          (
            λ h. (common_fields-SameCommon.0 (both.0 h).0, λ e. k3d_settled (both.0 h).1),
            λ s. both.1 (common_fields-SameCommon.1 s.0, k3d_settles (s.1 is_k3d)),
          )
    | inr other ↦
        rw (other, compare_shapes)
          (
            λ h. (
              common_fields-SameCommon.0 h,
              λ e. absurd (cc ((eq_iff d.provisioner "k3d").1 e, other)),
            ),
            λ s. common_fields-SameCommon.1 s.0,
          )
  ]

  -- The report is clean exactly if the declared shape and the recorded one have the seven fields
  -- in common that every provisioner reads, and, where the declared provisioner is k3d, the ten
  -- fields that k3d reads as well; of these the optional texts and the lists as they are shown.
  pub compare_shapes-is_clean :
      (is_clean (compare_shapes d r) ≡ true)
      ↔ (SameCommon d r × (d.provisioner ≡ "k3d" → SameK3d d r))
  compare_shapes-is_clean =
      let clean = is_clean-IsSettled (compare_shapes d r) in
      (λ h. compare_shapes-IsSettled.0 (clean.0 h), λ s. clean.1 (compare_shapes-IsSettled.1 s))

same_common : (d : ClusterShape) → SameCommon d d
same_common d = record {
  provisioner = refl;
  control_planes = refl;
  workers = refl;
  distribution = refl;
  version = refl;
  pod_subnet = refl;
  service_subnet = refl;
}

same_k3d : (d : ClusterShape) → SameK3d d d
same_k3d d = record {
  image = refl;
  network = refl;
  no_traefik = refl;
  no_service_lb = refl;
  no_flannel = refl;
  no_local_storage = refl;
  ports = refl;
  extra_api_server_args = refl;
  extra_volumes = refl;
  auto_deploy_manifests = refl;
}

is_clean_refl : (d : ClusterShape) → is_clean (compare_shapes d d) ≡ true
is_clean_refl d = (compare_shapes-is_clean d d).1 (same_common d, λ e. same_k3d d)

shape_of-k3d_block :
    (spec : ClusterSpec) (block : K3dConfig)
    → spec.provisioner ≢ k3d
    → shape_of (record spec { k3d = block }) ≡ shape_of spec
unfolding shape_of
shape_of-k3d_block spec block other = ground arith

-- Two specifications that differ at most in the k3d block have shapes without drift, unless the
-- provisioner is k3d: a k3d block that k3d never reads is not reported.
pub shape_of-is_clean :
    (spec : ClusterSpec) (block : K3dConfig)
    → spec.provisioner ≢ k3d
    → is_clean (compare_shapes (shape_of (record spec { k3d = block })) (shape_of spec)) ≡ true
shape_of-is_clean spec block other =
    subst (λ d. is_clean (compare_shapes d (shape_of spec)) ≡ true)
      (sym (shape_of-k3d_block spec block other)) (is_clean_refl (shape_of spec))

-- Two arguments for the API server, and one that holds both texts with a comma and a space between,
-- make shapes that are reported as the same, whatever the rest of the shape is.
pub compare_shapes-joined :
    (shape : ClusterShape) (a b : String)
    → is_clean (
        compare_shapes
          (record shape { extra_api_server_args = a ∷ b ∷ [] })
          (record shape { extra_api_server_args = (a <> (", " <> b)) ∷ [] }))
      ≡ true
unfolding show_list join
compare_shapes-joined shape a b = (compare_shapes-is_clean _ _).1 (
  record {
    provisioner = refl;
    control_planes = refl;
    workers = refl;
    distribution = refl;
    version = refl;
    pod_subnet = refl;
    service_subnet = refl;
  },
  λ e. record {
    image = refl;
    network = refl;
    no_traefik = refl;
    no_service_lb = refl;
    no_flannel = refl;
    no_local_storage = refl;
    ports = refl;
    extra_api_server_args = refl;
    extra_volumes = refl;
    auto_deploy_manifests = refl;
  },
)
