-- ===== src/Operator/Triggers.antt =====
-- pkg/operator/controller/mcpproxy_controller.go: the proxies that a change enqueues against those that
-- list the changed object.
use mathlib.Core.List.{Memᴰ}
use mathlib.Core.List.Memᴰ
use mathlib.Core.Option
use mathlib.Core.Path.{subst}
use go_auto_mcp.Prelude.{
  Bool, true, false, Option, none, some, List, [], ◌∷◌, ◌++◌, ◌≡◌, refl, sym, ◌∙◌, ap, ◌↔◌, Text,
  text_eq, text_beq_iff, ◌==◌, ◌&&◌, Dict, keep, arith, Bool-cases, Option-cases, inl, inr,
}
use go_auto_mcp.Operator.{Upstream, Service, Proxy}
use go_auto_mcp.Operator.Discovery.{
  InNamespace, Client, both_lists, gather, or_own, service_matches, is_enabled,
  discovery_namespaces, annotated_in, annotated_for, annotated, list_upstreams, visits_service,
  visits_found, triggers_service, visits_upstream, triggers_upstream,
}

module _ {ℓ} {A : Type ℓ} where
  mem-keep : (p : A → Bool) (x : A) (xs : List A) → Memᴰ x xs → p x ≡ true → Memᴰ x (keep p xs)
  mem-keep p x [] m h = absurd (Memᴰ.not-nil m)
  mem-keep p x (y ∷ ys) (Memᴰ.head e) h =
      let here : p y ≡ true = ap p (sym e) ∙ h in rw here (Memᴰ.head e)
  mem-keep p x (y ∷ ys) (Memᴰ.tail m) h = elim (Bool-cases (p y)) [
    | inl e ↦ rw e (Memᴰ.tail (mem-keep p x ys m h))
    | inr e ↦ rw e (mem-keep p x ys m h)
  ]

  keep-mem : (p : A → Bool) (x : A) (xs : List A) → Memᴰ x (keep p xs) → Memᴰ x xs × (p x ≡ true)
  keep-mem p x [] m = absurd (Memᴰ.not-nil m)
  keep-mem p x (y ∷ ys) m = elim (Bool-cases (p y)) [
    | inl e ↦
        let kept : keep p (y ∷ ys) ≡ y ∷ keep p ys = simp e in
        elim (Memᴰ.cases_cons (subst (λ l. Memᴰ x l) kept m)) [
          | inl same ↦ (Memᴰ.head same, ap p same ∙ e)
          | inr later ↦ let (there, h) = keep-mem p x ys later in (Memᴰ.tail there, h)
        ]
    | inr e ↦
        let kept : keep p (y ∷ ys) ≡ keep p ys = simp e in
        let (there, h) = keep-mem p x ys (subst (λ l. Memᴰ x l) kept m) in (Memᴰ.tail there, h)
  ]

  both_lists-some :
      (k l : Option (List A)) (found : List A)
      → both_lists k l ≡ some found
      → (a : List A) × (b : List A) × (k ≡ some a) × (l ≡ some b) × (a ++ b ≡ found)
  both_lists-some none l found h = absurd cc
  both_lists-some (some a) none found h = absurd cc
  both_lists-some (some a) (some b) found h = (a, b, refl, refl, cc)

module _ {ℓ κ} {A : Type ℓ} (list_in : Text → Option (List A)) (Has : Text → A → Type κ)
    (law : (ns : Text) (l : List A) (x : A) → list_in ns ≡ some l → Memᴰ x l ↔ Has ns x) where
  -- what a loop over namespaces finds is in one of them
  gather_iff :
      (nss : List Text) (found : List A) (x : A)
      → gather list_in nss ≡ some found
      → Memᴰ x found ↔ ((ns : Text) × Memᴰ ns nss × Has ns x)
  unfolding gather
  gather_iff [] found x h =
      let e : some [] ≡ some found = h in
      let nothing : found ≡ [] = cc in
      (
        λ m. absurd (Memᴰ.not-nil (subst (λ l. Memᴰ x l) nothing m)),
        λ (ns, m, has). absurd (Memᴰ.not-nil m),
      )
  gather_iff (ns ∷ nss) found x h =
      let (a, b, here, there, e) = both_lists-some (list_in ns) (gather list_in nss) found h in
      let first = law ns a x here in
      let rest = gather_iff nss b x there in
      (
        λ m. elim (Memᴰ.append_cases a (subst (λ l. Memᴰ x l) (sym e) m)) [
          | inl m ↦ (ns, Memᴰ.head refl, first.0 m)
          | inr m ↦ let (at, within, has) = rest.0 m in (at, Memᴰ.tail within, has)
        ],
        λ (at, within, has).
            subst (λ l. Memᴰ x l) e
              (elim (Memᴰ.cases_cons within) [
                | inl same ↦ Memᴰ.append_left b (first.1 (subst (λ n. Has n x) same has))
                | inr later ↦ Memᴰ.append_right a (rest.1 (at, later, has))
              ]),
      )

visits_service_iff :
    (svc : Service) (proxy : Proxy) (nss : List Text)
    → (visits_service svc proxy nss ≡ true)
      ↔ (Memᴰ svc.namespace nss × (service_matches svc proxy ≡ true))
unfolding visits_service
visits_service_iff svc proxy [] = (λ h. absurd cc, λ (m, h). absurd (Memᴰ.not-nil m))
visits_service_iff svc proxy (ns ∷ nss) = elim (Bool-cases (ns == svc.namespace)) [
  | inl e ↦ rw e (λ h. (Memᴰ.head (sym ((text_beq_iff ns svc.namespace).0 e)), h), λ (m, h). h)
  | inr e ↦
      let rest = visits_service_iff svc proxy nss in
      rw e (
        λ h. let (m, k) = rest.0 h in (Memᴰ.tail m, k),
        λ (m, h). elim (Memᴰ.cases_cons m) [
          | inl same ↦ absurd (let f = (text_beq_iff ns svc.namespace).1 (sym same) in cc)
          | inr later ↦ rest.1 (later, h)
        ],
      )
]

visits_upstream_iff :
    (up : Upstream) (selector : Dict Text Text → Bool) (nss : List Text)
    → (visits_upstream up selector nss ≡ true)
      ↔ (Memᴰ up.namespace nss × (selector up.labels ≡ true))
unfolding visits_upstream
visits_upstream_iff up selector [] = (λ h. absurd cc, λ (m, h). absurd (Memᴰ.not-nil m))
visits_upstream_iff up selector (ns ∷ nss) =
    let rest = visits_upstream_iff up selector nss in
    elim (Bool-cases (ns == up.namespace)) [
      | inr e ↦ rw e (
        λ h. let (m, k) = rest.0 h in (Memᴰ.tail m, k),
        λ (m, h). elim (Memᴰ.cases_cons m) [
          | inl same ↦ absurd (let f = (text_beq_iff ns up.namespace).1 (sym same) in cc)
          | inr later ↦ rest.1 (later, h)
        ],
      )
      | inl e ↦ rw e (elim (Bool-cases (selector up.labels)) [
        | inl fits ↦
            rw fits
              (λ h. (Memᴰ.head (sym ((text_beq_iff ns up.namespace).0 e)), refl), λ (m, h). refl)
        | inr differs ↦ rw differs (
          λ h. absurd (let (m, k) = rest.0 h in let f = sym differs ∙ k in cc),
          λ (m, h). absurd cc,
        )
      ])
    ]

-- a listed namespace that is not empty is the object's own
own_namespace :
    (ns own : Text) (nss : List Text)
    → ¬ Memᴰ [] nss
    → Memᴰ ns nss
    → InNamespace ns own
    → Memᴰ own nss
own_namespace ns own nss named within (inl all) =
    absurd (named (subst (λ n. Memᴰ n nss) all within))
own_namespace ns own nss named within (inr same) = subst (λ n. Memᴰ n nss) (sym same) within

module _ (client : Client) where
  -- what a namespace has for a proxy
  abbrev AnnotatedIn : Proxy → Text → Service → Type 0
  AnnotatedIn proxy ns svc =
      client.has_service svc
      × InNamespace ns svc.namespace
      × ((is_enabled svc && service_matches svc proxy) ≡ true)

  annotated_in_iff :
      (proxy : Proxy) (ns : Text) (l : List Service) (svc : Service)
      → annotated_in client proxy ns ≡ some l
      → Memᴰ svc l ↔ AnnotatedIn proxy ns svc
  annotated_in_iff proxy ns l svc h =
      let p : Service → Bool = λ x. is_enabled x && service_matches x proxy in
      let (raw, listed, kept) = (Option.map-eq-some_iff (keep p) (client.services ns)).0 h in
      let law = client.services_iff ns raw svc listed in
      (
        λ m.
            let (there, ok) = keep-mem p svc raw (subst (λ k. Memᴰ svc k) (sym kept) m) in
            let (stored, same) = law.0 there in (stored, same, ok),
        λ (stored, same, ok).
            subst (λ k. Memᴰ svc k) kept (mem-keep p svc raw (law.1 (stored, same)) ok),
      )

  visits_found_iff :
      (svc : Service) (proxy : Proxy) (nss : Option (List Text)) (found : List Service)
      → client.has_service svc
      → is_enabled svc ≡ true
      → ((l : List Text) → nss ≡ some l → ¬ Memᴰ [] l)
      → annotated_for client proxy nss ≡ some found
      → (visits_found svc proxy nss ≡ true) ↔ Memᴰ svc found
  visits_found_iff svc proxy none found stored enabled named h = absurd cc
  visits_found_iff svc proxy (some nss) found stored enabled named h =
      let visits = visits_service_iff svc proxy nss in
      let listed =
        gather_iff (annotated_in client proxy) (AnnotatedIn proxy) (annotated_in_iff proxy) nss
          found svc h in
      (
        λ v.
            let (m, fits) = visits.0 v in
            listed.1 (svc.namespace, m, (stored, inr refl, simp (enabled, fits))),
        λ m.
            let (ns, within, (there, same, both)) = listed.0 m in
            visits.1 (
              own_namespace ns svc.namespace nss (named nss refl) within same,
              ground (arith, both),
            ),
      )

  -- For a Service that is stored and enabled, and a proxy none of whose discovery namespaces is
  -- empty, a change enqueues the proxy exactly if the proxy lists the Service, where the proxy's
  -- listing succeeds.
  pub triggers_service_iff :
      (svc : Service) (proxy : Proxy) (found : List Service)
      → client.has_service svc
      → is_enabled svc ≡ true
      → ((l : List Text) → discovery_namespaces client proxy ≡ some l → ¬ Memᴰ [] l)
      → annotated client proxy ≡ some found
      → (triggers_service client svc proxy ≡ true) ↔ Memᴰ svc found
  unfolding triggers_service annotated
  triggers_service_iff svc proxy found stored enabled named h =
      elim (Option-cases proxy.service_discovery) [
        | inl off ↦
            let e : some [] ≡ some found = sym (simp (off, annotated)) ∙ h in
            let f : triggers_service client svc proxy ≡ false = simp (off, triggers_service) in
            (
              λ t. absurd cc,
              λ m. absurd (Memᴰ.not-nil (subst (λ l. Memᴰ svc l) (let g : found ≡ [] = cc in g) m)),
            )
        | inr (discovery, on) ↦ elim (Bool-cases discovery.enabled) [
          | inr off ↦
              let e : some [] ≡ some found = sym (simp (on, off, annotated)) ∙ h in
              let f : triggers_service client svc proxy ≡ false =
                simp (on, off, triggers_service) in
              (
                λ t. absurd cc,
                λ m.
                    absurd
                      (Memᴰ.not-nil (subst (λ l. Memᴰ svc l) (let g : found ≡ [] = cc in g) m)),
              )
          | inl active ↦
              let nss = discovery_namespaces client proxy in
              let e : annotated_for client proxy nss ≡ some found =
                sym (simp (on, active, annotated)) ∙ h in
              let f : triggers_service client svc proxy ≡ visits_found svc proxy nss =
                simp (on, active, triggers_service) in
              rw f (visits_found_iff svc proxy nss found stored enabled named e)
        ]
      ]

  -- For an upstream that is stored, and a proxy none of whose namespaces is empty, a change enqueues
  -- the proxy exactly if the proxy lists the upstream, where the proxy's listing succeeds.
  pub triggers_upstream_iff :
      (up : Upstream) (proxy : Proxy) (found : List Upstream)
      → client.has_upstream up
      → ¬ Memᴰ [] (or_own proxy proxy.match_names)
      → list_upstreams client proxy ≡ some found
      → (triggers_upstream client up proxy ≡ true) ↔ Memᴰ up found
  unfolding triggers_upstream list_upstreams
  triggers_upstream_iff up proxy found stored named h =
      elim (Option-cases proxy.upstream_selector) [
        | inl broken ↦
            let e : none ≡ some found = sym (simp (broken, list_upstreams)) ∙ h in absurd cc
        | inr (selector, parsed) ↦
            let nss = or_own proxy proxy.match_names in
            let e : gather (λ ns. client.upstreams ns selector) nss ≡ some found =
              sym (simp (parsed, list_upstreams)) ∙ h in
            let f : triggers_upstream client up proxy ≡ visits_upstream up selector nss =
              simp (parsed, triggers_upstream) in
            let visits = visits_upstream_iff up selector nss in
            let listed =
              gather_iff (λ ns. client.upstreams ns selector)
                (λ ns x.
                  client.has_upstream x × InNamespace ns x.namespace × (selector x.labels ≡ true))
                (λ ns l x k. client.upstreams_iff ns selector l x k) nss found up e in
            rw f (
              λ v.
                  let (m, fits) = visits.0 v in
                  listed.1 (up.namespace, m, (stored, inr refl, fits)),
              λ m.
                  let (ns, within, (there, same, fits)) = listed.0 m in
                  visits.1 (own_namespace ns up.namespace nss named within same, fits),
            )
      ]
