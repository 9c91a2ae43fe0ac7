-- ===== src/Sandbox/CapabilityManager/Collision.antt =====
-- Two pairs of an agent and a skill under one key, and what `revoke_all` makes of it.
use ughi.Prelude.{ℕ, ◌≡◌, ap, ◌∙◌, String, eq_iff, str_append, str_append_assoc, true, arith}
use ughi.Sandbox.CapabilityManager.{
  CapabilityManager, CapabilityScope, issue, new_token, cap_key, is_valid,
}
use ughi.Sandbox.CapabilityManager.Authority.{authorises, authorises-issue}

-- The key does not tell where the agent's name ends.
cap_key_collides :
    (a b c : String)
    → cap_key (str_append a (str_append ":" b)) c ≡ cap_key a (str_append b (str_append ":" c))
unfolding cap_key
cap_key_collides a b c =
    str_append_assoc a (str_append ":" b) (str_append ":" c)
    ∙ ap (str_append a) (str_append_assoc ":" b (str_append ":" c))

-- A token without an expiry that is issued to the agent `a:b` for the skill `c` also authorises the
-- agent `a` for the skill `b:c`, at every time, whatever the names and the manager.
pub issue-authorises_other :
    (m : CapabilityManager) (a b c : String) (scope : CapabilityScope) (now : ℕ) (id : String)
    (later : ℕ)
    → authorises
        (issue m (str_append a (str_append ":" b)) c scope 0 now id).0
        a
        (str_append b (str_append ":" c))
        later
      ≡ true
unfolding issue new_token is_valid
issue-authorises_other m a b c scope now id later = ground (
  arith,
  cap_key_collides a b c,
  eq_iff (cap_key (str_append a (str_append ":" b)) c)
      (cap_key a (str_append b (str_append ":" c))),
  authorises-issue m (str_append a (str_append ":" b)) c scope 0 now id a
      (str_append b (str_append ":" c)) later,
)
