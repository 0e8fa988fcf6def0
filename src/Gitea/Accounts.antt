-- ===== src/Gitea/Accounts.antt =====
-- The requests that sign up the users of the workshop in Gitea.
use workshop_operator.Prelude.{
  ◌≡◌, refl, ap, ◌∙◌, fun_ext, ℕ, zero, suc, String, ◌<>◌, true, List, [], ◌∷◌, itoa,
}
use workshop_operator.Kube.Env.{Env, HttpRequest, HttpAnswer, status_code, http_failed}
use workshop_operator.Kube.Flow.{
  Code, failure, has_error, pure, give_back, ◌>>=◌, ◌>>◌, propagate, return_if,
}
use workshop_operator.Build.Base.{Workshop}
use workshop_operator.Gitea.{
  Web, create_git_user, after_answer, sign_up_request, create_git_users, gitea_url,
}

-- One request for each of `n` users from an id on.
abbrev pub sign_up_requests : Web → Workshop → (gitea_url : String) (id : ℕ) → ℕ → List HttpRequest
sign_up_requests web ws gitea_url id zero = []
sign_up_requests web ws gitea_url id (suc n) =
    sign_up_request web ws ("user" <> itoa id) gitea_url
    ∷ sign_up_requests web ws gitea_url (suc id) n

module _ (env : Env) where
  open env use {World}

  abbrev unless_failed : HttpAnswer → Code World (Unit {0})
  unless_failed (status_code _) = pure tt
  unless_failed (http_failed e) = give_back (failure e)

  abbrev send_one : HttpRequest → Code World (Unit {0})
  send_one q w = unless_failed (env.send q w).0 (env.send q w).1

  -- The requests are sent in turn, up to the first that has no answer.
  abbrev pub send_all : List HttpRequest → Code World (Unit {0})
  send_all [] = pure tt
  send_all (q ∷ qs) = send_one q >> send_all qs

  module _ (web : Web) (ws : Workshop) (gitea_url : String)
      (valid : web.is_url (gitea_url <> "/user/sign_up") ≡ true) where
    by_answer :
        (answer : HttpAnswer) (w : World)
        → (pure (after_answer env web answer) >>= return_if has_error) w ≡ unless_failed answer w
    unfolding ◌>>=◌ return_if after_answer
    by_answer (status_code n) w = refl
    by_answer (http_failed e) w = refl

    one_request :
        (username : String) (w : World)
        → propagate has_error (create_git_user env web ws username gitea_url) w
          ≡ unless_failed
              (env.send (sign_up_request web ws username gitea_url) w).0
              (env.send (sign_up_request web ws username gitea_url) w).1
    unfolding propagate ◌>>=◌ create_git_user
    one_request username w = rw (create_git_user, valid) (by_answer _ _)

    -- Where the address of Gitea makes a URL, the accounts of the users are created by one request
    -- for each of them, in turn, up to the first that has no answer: a status, whatever it is,
    -- stops nothing.
    pub create_git_users-send_all :
        (id n : ℕ)
        → create_git_users env web ws gitea_url id n
          ≡ send_all (sign_up_requests web ws gitea_url id n)
    unfolding create_git_users
    create_git_users-send_all id zero = refl
    create_git_users-send_all id (suc n) =
        ap (λ m. m >> create_git_users env web ws gitea_url (suc id) n)
          (fun_ext λ w. one_request ("user" <> itoa id) w)
        ∙ ap (λ m. send_one (sign_up_request web ws ("user" <> itoa id) gitea_url) >> m)
            (create_git_users-send_all (suc id) n)
