-- ===== src/GitOps/Accounts.antt =====
-- What the loop over the users of `addGitOps` gathers.
use text.Mathlib.TextLemmas.{append_cancel_left, append_assoc, append-nil, nil-append}
use workshop_operator.Prelude.{
  ◌≡◌, refl, sym, ap, ◌∙◌, ℕ, zero, suc, ◌+◌, String, ◌<>◌, none, some, lookup, lookup-insert,
  itoa-injective, eq_iff, arith, ltb, leb, ◌&&◌, if◌then◌else◌, List, elem, ◌∷◌, [],
}
use workshop_operator.Kube.Env.{Env}
use workshop_operator.Kube.Flow.{Code, Step, next, ret, panic, out_of_fuel, pure, ◌>>=◌, proceed}
use workshop_operator.Build.Base.{Workshop}
use workshop_operator.Build.GitOps.{Gathered, gather, nothing_gathered, user_policy}
use workshop_operator.Project.{staging_project_name, project_username}
use workshop_operator.GitOps.{add_account, add_accounts}

-- The policies of `n` users from an id on, and the names of their projects behind commas.
abbrev pub policies : Workshop → (id : ℕ) → ℕ → String
policies ws id zero = ""
policies ws id (suc n) =
    user_policy (project_username id) (staging_project_name ws id) <> policies ws (suc id) n

-- The accounts of `n` users from an id on.
abbrev pub account_names : (id : ℕ) → ℕ → List String
account_names id zero = []
account_names id (suc n) = ("accounts." <> project_username id) ∷ account_names (suc id) n

module _ (ws : Workshop) (password : String) where
  gather_from : (id : ℕ) → ℕ → Gathered → Gathered
  gather_from id zero acc = acc
  gather_from id (suc n) acc =
      gather_from (suc id) n
        (gather (project_username id) (staging_project_name ws id) password id acc)

  gathered-policies :
      (id n : ℕ) (acc : Gathered)
      → (gather_from id n acc).argocd_policy ≡ acc.argocd_policy <> policies ws id n
  unfolding gather_from
  gathered-policies id zero acc = sym (append-nil acc.argocd_policy)
  gathered-policies id (suc n) acc =
      gathered-policies (suc id) n
        (gather (project_username id) (staging_project_name ws id) password id acc)
      ∙ append_assoc acc.argocd_policy
          (user_policy (project_username id) (staging_project_name ws id)) (policies ws (suc id) n)

  account_name : ℕ → String
  account_name i = "accounts." <> project_username i

  account_name-injective : (i j : ℕ) → account_name i ≡ account_name j → i ≡ j
  unfolding account_name
  account_name-injective i j h =
      itoa-injective i j (append_cancel_left "user" _ _ (append_cancel_left "accounts." _ _ h))

  -- An account of a user from `id` on is gathered, the others stay.
  gathered-account :
      (id n i : ℕ) (acc : Gathered)
      → lookup (account_name i) (gather_from id n acc).config_map_content ≡ (
          if leb id i && ltb i (id + n)
          then some "login"
          else lookup (account_name i) acc.config_map_content)
  unfolding gather_from account_name
  gathered-account id zero i acc = ground arith
  gathered-account id (suc n) i acc = ground (
    arith,
    gathered-account (suc id) n i
        (gather (project_username id) (staging_project_name ws id) password id acc),
    lookup-insert (account_name id) (account_name i) "login" acc.config_map_content,
    eq_iff (account_name id) (account_name i),
    account_name-injective id i,
  )

  -- A key is gathered exactly if it is the account of a user, any other keeps its value.
  gathered-key :
      (id n : ℕ) (key : String) (acc : Gathered)
      → lookup key (gather_from id n acc).config_map_content ≡ (
          if elem key (account_names id n) then some "login" else lookup key acc.config_map_content)
  unfolding gather_from
  gathered-key id zero key acc = ground arith
  gathered-key id (suc n) key acc = ground (
    arith,
    gathered-key (suc id) n key
        (gather (project_username id) (staging_project_name ws id) password id acc),
    lookup-insert ("accounts." <> project_username id) key "login" acc.config_map_content,
    eq_iff ("accounts." <> project_username id) key,
  )

  module _ (env : Env) where
    open env use {World}

    after_step :
        {A : Type 0} (s : Step A) (f : A → Code World Gathered) (w : World) (expected g : Gathered)
        → ((a : A) → s ≡ next a → (f a w).0 ≡ next g → g ≡ expected)
        → (proceed s f w).0 ≡ next g
        → g ≡ expected
    after_step (next a) f w expected g k h = k a refl h
    after_step (ret r) f w expected g k h = cc
    after_step panic f w expected g k h = cc
    after_step out_of_fuel f w expected g k h = cc

    gathers :
        (id n : ℕ) (acc g : Gathered) (w : World)
        → (add_accounts env ws password id n acc w).0 ≡ next g
        → g ≡ gather_from id n acc
    unfolding add_accounts gather_from pure ◌>>=◌
    gathers id zero acc g w h = cc
    gathers id (suc n) acc g w h =
        let acc' : Gathered =
          gather (project_username id) (staging_project_name ws id) password id acc in
        let added = add_account env (staging_project_name ws id) acc'.argocd_policy w in
        after_step {A = Unit {0}} added.0 (λ _. add_accounts env ws password (suc id) n acc')
          added.1 (gather_from (suc id) n acc') g (λ a e. gathers (suc id) n acc' g added.1) h

    -- Where the loop over the users of `addGitOps` goes on, the policy of Argo CD is the policies
    -- of the users from 1 to their number, one behind the other. In the config map the account of a
    -- user `i` has the value `login` if `i` is one of these users, and is missing otherwise; and any
    -- key has this value if it is the account of one of these users, and is missing otherwise.
    pub add_accounts-gathers :
        (n : ℕ) (g : Gathered) (w : World)
        → (add_accounts env ws password 1 n nothing_gathered w).0 ≡ next g
        → (g.argocd_policy ≡ policies ws 1 n)
          × ((i : ℕ)
              → lookup ("accounts." <> project_username i) g.config_map_content
                ≡ (if leb 1 i && leb i n then some "login" else none))
          × ((key : String)
              → lookup key g.config_map_content
                ≡ (if elem key (account_names 1 n) then some "login" else none))
    unfolding account_name lookup
    add_accounts-gathers n g w h =
        let same = gathers 1 n nothing_gathered g w h in
        (
          ap (λ x. x.argocd_policy) same ∙ gathered-policies 1 n nothing_gathered ∙ nil-append _,
          λ i.
              ap (λ (x : Gathered). lookup ("accounts." <> project_username i) x.config_map_content)
                same
              ∙ gathered-account 1 n i nothing_gathered
              ∙ ground arith,
          λ key.
              ap (λ (x : Gathered). lookup key x.config_map_content) same
              ∙ gathered-key 1 n key nothing_gathered,
        )
