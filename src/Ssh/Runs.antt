-- ===== src/Ssh/Runs.antt =====
-- Concrete runs of the limiter and of logins: the properties at inputs where their conditions hold.
use ailes.Common.{
  ℕ, ◌+◌, ◌≤◌, ◌↔◌, true, false, none, some, List, [], ◌∷◌, ◌++◌, ◌==◌, if◌then◌else◌, ◌≡◌, ◌≢◌,
  refl, arith, min,
}
use ailes.Common.Text.{Text, split}
use ailes.Permissions.{file_sftp, file_read, has_permission, contains, is_admin}
use ailes.Ssh.Limiter.{
  IpAddr, v4, password, Limits, ip_key, new, allowed, attempts, default, count_attempt,
  uncount_attempt, check_attempt, finish_attempt, purge, increment_sessions, fetch_add, may_open,
}
use ailes.Ssh.Limiter.Attempts.{
  Event, check, finish, tick, passed, finished, count_of, passed_bound,
}
use ailes.Ssh.Limiter.Sessions
use ailes.Ssh.Limiter.Handles
use ailes.Ssh.Auth.{
  dot, SftpAuth, Env, accept, SshSession, auth_password, auth_publickey, validate_username,
  scan_segments, admit, enter_server, attempt,
}
use ailes.Ssh.Auth.Usernames.{validate_username_iff, IsHex8}
use ailes.Ssh.Auth.Admission.{IsAuthorised}
use ailes.Ssh.Auth.Answers.{auth_password-accept}
use ailes.Ssh.Auth.Attacks.{Try, Turn, guess, cleanup, tries, asks, asks_bound}
use ailes.Common.Dict.{put}

abbrev limits0 : Limits
limits0 = record {
  authentication_password_attempts = 2;
  authentication_pubkey_attempts = 1;
  authentication_cooldown = 60;
  max_connections_per_user = 1;
  max_handles_total = 1;
}

abbrev home : IpAddr
home = v4 2130706433

-- Three attempts, of which the first ends, with a purge and another address between.
abbrev storm : List (ℕ × Event)
storm =
    (0, check home password)
    ∷ (1, check (v4 7) password)
    ∷ (2, finish home password)
    ∷ (3, check home password)
    ∷ (4, tick)
    ∷ (5, check home password)
    ∷ (6, check home password)
    ∷ []

passed-storm : passed limits0 home password storm new ≡ 3
unfolding new check_attempt finish_attempt purge put count_attempt uncount_attempt attempts allowed
    default
passed-storm = refl

passed_bound_example :
    passed limits0 home password storm new
      + min (count_of limits0 home password (new.ratelimits home)) (allowed limits0 password)
    ≤ allowed limits0 password + finished limits0 home password storm
unfolding new check_attempt finish_attempt purge put count_attempt uncount_attempt attempts allowed
    default
passed_bound_example =
    passed_bound limits0 home password storm new (ground arith) refl (ground arith)

Reach-one : Sessions.Reach limits0 ((increment_sessions limits0 7 new).0, 7 ∷ [])
unfolding new increment_sessions put
Reach-one = Sessions.step Sessions.start (Sessions.enter 7 refl)

Reach-Counted_example : Sessions.Counted limits0 ((increment_sessions limits0 7 new).0, 7 ∷ []) 7
Reach-Counted_example = Sessions.Reach-Counted 7 (ground arith) Reach-one

abbrev after_add : Handles.World → Handles.World
after_add w =
    Handles.decide limits0 (fetch_add w.limiter).1 (record w { limiter = (fetch_add w.limiter).0 })

-- One task is handed a guard, then a second counts and will be turned away.
abbrev one_guard : Handles.World
one_guard = record (after_add Handles.initial) { admitted = 0; guards = 1 }

Reach-guard : Handles.Reach limits0 one_guard
unfolding new fetch_add may_open Handles.decide
Reach-guard =
    Handles.step (Handles.step Handles.start (Handles.add Handles.initial (ground arith)))
      (Handles.hand_out (after_add Handles.initial) 0 refl)

Reach-two : Handles.Reach limits0 (after_add one_guard)
unfolding new fetch_add may_open Handles.decide
Reach-two = Handles.step Reach-guard (Handles.add one_guard (ground arith))

Reach_bound_example : (after_add one_guard).admitted + (after_add one_guard).guards ≤ 1
Reach_bound_example = Handles.Reach_bound {limits = limits0} (ground arith) Reach-two

-- "a." and eight digits.
abbrev name0 : Text
name0 = 97 ∷ dot ∷ 48 ∷ 49 ∷ 50 ∷ 51 ∷ 97 ∷ 98 ∷ 67 ∷ 68 ∷ []

name0-valid : validate_username name0 ≡ true
unfolding validate_username scan_segments split
name0-valid = refl

abbrev digits0 : Text
digits0 = 48 ∷ 49 ∷ 50 ∷ 51 ∷ 97 ∷ 98 ∷ 67 ∷ 68 ∷ []

abbrev grant : SftpAuth
grant = record {
  user = 7;
  server = 3;
  permissions = file_read ∷ file_sftp ∷ [];
  ignored_files = [];
}

-- The panel knows the secret 1 only.
abbrev env0 : Env
env0 = record {
  limits = limits0;
  disable_password_auth = false;
  log_logins = true;
  get_sftp_auth = λ kind username secret. elim secret [
    | [] ↦ none
    | c ∷ cs ↦ if c == 1 then some grant else none
  ];
  get_server = λ server. some false;
}

abbrev session0 : SshSession
session0 = record { limiter = new; server = none; user_ip = home; user_uuid = none; calls = [] }

password-accepted : (auth_password env0 0 name0 (1 ∷ []) session0).1 ≡ accept
unfolding auth_password attempt enter_server admit validate_username scan_segments split new
    check_attempt finish_attempt put count_attempt uncount_attempt attempts allowed default
    increment_sessions has_permission contains is_admin
password-accepted = refl

key-accepted : (auth_publickey env0 0 name0 (some (1 ∷ [])) session0).1 ≡ accept
unfolding auth_publickey attempt enter_server admit validate_username scan_segments split new
    check_attempt finish_attempt put count_attempt uncount_attempt attempts allowed default
    increment_sessions has_permission contains is_admin
key-accepted = refl

auth_password-accept_example :
    (false ≡ false)
    × (validate_username name0 ≡ true)
    × IsAuthorised env0 password name0
        (1 ∷ [])
        session0
        (auth_password env0 0 name0 (1 ∷ []) session0).0
auth_password-accept_example =
    auth_password-accept env0 0 name0 session0 (1 ∷ []) (ground arith) password-accepted

password-refused : (auth_password env0 0 name0 (2 ∷ []) session0).1 ≢ accept
unfolding auth_password attempt validate_username scan_segments split new check_attempt put
    count_attempt attempts allowed default
password-refused = ground arith

key-refused : (auth_publickey env0 0 name0 none session0).1 ≢ accept
unfolding auth_publickey validate_username scan_segments split new check_attempt put count_attempt
    attempts allowed default
key-refused = ground arith

validate_username_iff_example :
    (validate_username name0 ≡ true)
    ↔ ((front : Text) × (hex : Text) × (name0 ≡ front ++ (dot ∷ hex)) × IsHex8 hex)
validate_username_iff_example = validate_username_iff name0

abbrev try : ℕ → Try
try n = record { at = n; username = name0; secret = 2 ∷ [] }

abbrev guesses : List Turn
guesses = guess (try 0) ∷ guess (try 1) ∷ cleanup 5000000000 ∷ guess (try 2) ∷ guess (try 3) ∷ []

asks-guesses : asks (tries env0 guesses session0).calls ≡ 2
unfolding tries auth_password attempt validate_username scan_segments split new check_attempt put
    count_attempt attempts allowed default purge
asks-guesses = refl

asks_bound_example : asks (tries env0 guesses session0).calls ≤ allowed limits0 password + 0
unfolding validate_username scan_segments split new check_attempt put count_attempt attempts allowed
    default purge
asks_bound_example =
    asks_bound env0 guesses session0 (refl, (refl, (refl, (refl, tt)))) (ground arith) refl
      (ground arith)
