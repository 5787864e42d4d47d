-- ===== src/Svn/Laws.antt =====
-- What older/check_svn.py runs, and what it makes of the end of that command.
use nagios_plugins.Base.{
  ℕ, String, Bool, true, false, Option, none, some, List, [], ◌∷◌, ◌++◌, ◌==◌, ◌≡◌, ◌↔◌, ◌⊎◌, inl,
  inr, refl, sym, ap, ◌∙◌, arith, Bool-cases, leb, if◌then◌else◌, or_zero,
}
use nagios_plugins.Base.Int.{ℤ, is_zero}
use nagios_plugins.Text.{◌&◌, is_space, is_empty, is_falsy, split, lstrip, strip, replace, or_empty}
use nagios_plugins.Text.Decimal.{show}
use nagios_plugins.Text.Decimal.Plain.{show-Lacks}
use nagios_plugins.Text.Occurrences.{Lacks, occurrences-append, occurrences-lstrip}
use nagios_plugins.Text.Words.{
  IsWord, is_empty-front, IsWord-front, IsWord-append, split-front, split-word,
}
use nagios_plugins.Nagios.{
  returned, ok_status, critical_status, >>=-eq-returned, returned-injective,
}
use nagios_plugins.LibNagios as Nagios
use nagios_plugins.LibNagios.{end, which, validate_host, validate_timeout}
use nagios_plugins.LibNagios.Laws.{validate_timeout_iff, run_iff, printed, printed-there}
use nagios_plugins.Svn.{
  Tester, World, port_text, directory_text, generate_uri, option, command_of, conclusion, server_of,
  test_svn, failure_of, validate_protocol, validate_port,
}
use Prim.Native.String.append.{nil}
use text.Mathlib.TextLemmas.{append_assoc, append-nil}

Lacks-append : (s t : String) → Lacks is_space s → Lacks is_space t → Lacks is_space (s & t)
Lacks-append s t h k = omega (arith, occurrences-append is_space s t, h, k)

-- the protocols that `validate_protocol` leaves
abbrev pub IsProtocol : String → Type 0
IsProtocol protocol = (protocol ≡ "http") ⊎ ((protocol ≡ "https") ⊎ (protocol ≡ "svn"))

port_text-Lacks : (port : Option ℕ) → Lacks is_space (port_text port)
unfolding is_space
port_text-Lacks none = refl
port_text-Lacks (some n) = Lacks-append ":" (show n) refl (show-Lacks n)

directory_text-Lacks :
    (directory : Option String)
    → Lacks is_space (or_empty directory)
    → Lacks is_space (directory_text directory)
unfolding is_space
directory_text-Lacks none h = refl
directory_text-Lacks (some directory) h =
    let shorter = occurrences-lstrip is_space (λ c. c == b'/') directory in
    Lacks-append "/" (lstrip (λ c. c == b'/') directory) refl (omega (arith, shorter, h))

IsProtocol-Lacks : (protocol : String) → IsProtocol protocol → Lacks is_space protocol
unfolding is_space
IsProtocol-Lacks protocol (inl h) = rw h refl
IsProtocol-Lacks protocol (inr (inl h)) = rw h refl
IsProtocol-Lacks protocol (inr (inr h)) = rw h refl

abbrev IsPlain : Tester → Type 0
IsPlain t =
    Lacks is_space (server_of t.base)
    × Lacks is_space (or_empty t.directory)
    × Lacks is_space (or_empty t.username)
    × Lacks is_space (or_empty t.password)

generate_uri-IsWord :
    (protocol server : String) (port : Option ℕ) (directory : Option String)
    → IsProtocol protocol
    → Lacks is_space server
    → Lacks is_space (or_empty directory)
    → IsWord (generate_uri protocol server port directory)
unfolding generate_uri
generate_uri-IsWord protocol server port directory h k l =
    IsWord-append protocol _ (IsProtocol-Lacks protocol h) (
      IsWord-front "://" _ (unfold is_space in (refl, refl)) (
        Lacks-append server _ k (
          Lacks-append (port_text port) (directory_text directory) (port_text-Lacks port)
            (directory_text-Lacks directory l))))

-- an option as an argument
abbrev pub argument : String → Option String → List String
argument name value = if is_falsy value then [] else (name & or_empty value) ∷ []

regroup : (w name v rest : String) → w & ((" " & name) & v) & rest ≡ w & " " & (name & v) & rest
regroup w name v rest = simp append_assoc

module _ (rest : String) (words : List String)
    (rest_splits : (v : String) → IsWord v → split (v & rest) ≡ v ∷ words) where
  split-option :
      (w name : String) (value : Option String)
      → IsWord w
      → IsWord name
      → Lacks is_space (or_empty value)
      → split (w & option (" " & name) value & rest) ≡ w ∷ (argument name value ++ words)
  split-option w name value h k l = elim (Bool-cases (is_falsy value)) [
    | inl absent ↦ rw (absent, nil) (rest_splits w h)
    | inr there ↦ rw there (
        ap split (regroup w name (or_empty value) rest)
        ∙ split-front w ((name & or_empty value) & rest) h
        ∙ ap (λ ws. w ∷ ws)
            (rest_splits (name & or_empty value) (IsWord-front name (or_empty value) k l)))
  ]

-- the arguments of `svn`
abbrev pub arguments : (svn uri : String) → (username password : Option String) → List String
arguments svn uri username password =
    svn
    ∷ "ls"
    ∷ uri
    ∷ "--no-auth-cache"
    ∷ "--non-interactive"
    ∷ (argument "--username=" username ++ (argument "--password=" password ++ []))

quiet_words :
    (rest : String)
    → " --no-auth-cache --non-interactive" & rest
      ≡ " " & "--no-auth-cache" & " " & "--non-interactive" & rest
quiet_words rest =
    append_assoc " --no-auth-cache " "--non-interactive" rest
    ∙ append_assoc " --no-auth-cache" " " ("--non-interactive" & rest)
    ∙ append_assoc " " "--no-auth-cache" (" " & "--non-interactive" & rest)

spread :
    (svn uri user pass : String)
    → ((svn & " ls " & uri & " --no-auth-cache --non-interactive") & user) & pass
      ≡ svn & " " & "ls" & " " & uri & " " & "--no-auth-cache" & " " & "--non-interactive" & user
        & pass & ""
spread svn uri user pass = simp append_assoc (
    ap (λ r. svn & " ls " & uri & " --no-auth-cache --non-interactive" & user & r)
      (sym (append-nil pass))
    ∙ ap (λ r. svn & " ls " & uri & r) (quiet_words (user & pass & ""))
    ∙ ap (λ r. svn & r) (append_assoc " ls" " " _ ∙ append_assoc " " "ls" _))

split-command_of :
    (svn uri : String) (username password : Option String)
    → IsWord svn
    → IsWord uri
    → Lacks is_space (or_empty username)
    → Lacks is_space (or_empty password)
    → split (command_of svn uri username password) ≡ arguments svn uri username password
unfolding command_of is_space
split-command_of svn uri username password h k l m =
    let ends = split-option "" [] (λ v x. ap split (append-nil v) ∙ split-word v x) in
    let options =
      split-option (option " --password=" password & "") (argument "--password=" password ++ [])
        (λ v x. ends v "--password=" password x (refl, refl) m) "--non-interactive" "--username="
        username (refl, refl) (refl, refl) l in
    ap split (spread svn uri (option " --username=" username) (option " --password=" password))
    ∙ split-front svn _ h
    ∙ ap (λ ws. svn ∷ ws)
        (split-front "ls" _ (refl, refl)
          ∙ ap (λ ws. "ls" ∷ ws)
              (split-front uri _ k
                ∙ ap (λ ws. uri ∷ ws)
                    (split-front "--no-auth-cache" _ (refl, refl)
                      ∙ ap (λ ws. "--no-auth-cache" ∷ ws) options)))

command_of-there :
    (svn uri : String) (username password : Option String)
    → IsWord svn
    → is_empty (command_of svn uri username password) ≡ false
unfolding command_of
command_of-there svn uri username password h =
    is_empty-front _ (option " --password=" password)
      (is_empty-front _ (option " --username=" username) (is_empty-front svn _ h.1))

-- the result when the command has printed something
abbrev pub verdict : (verbosity : ℕ) → ℤ → (output : String) → ℕ × String
verdict verbosity code output =
    if is_zero code
    then (
      ok_status,
      if leb 1 verbosity
          then "svn repository online - directory listing: " & strip (replace b'\n' " " output)
          else "svn repository online - directory listing successful",
    )
    else (critical_status, failure_of output)

conclusion-there :
    (verbosity : ℕ) (code : ℤ) (output : String)
    → is_empty output ≡ false
    → conclusion verbosity code output ≡ verdict verbosity code output
unfolding conclusion
conclusion-there verbosity code output h =
    rw h
      (elim (Bool-cases (leb 1 verbosity)) [ inl loud ↦ rw loud refl | inr quiet ↦ rw quiet refl ])

module _ (check_name : Option String) where
  IsProtocol-validate_protocol :
      (http https : Bool) (protocol : String)
      → validate_protocol check_name http https ≡ returned protocol
      → IsProtocol protocol
  unfolding validate_protocol end
  IsProtocol-validate_protocol true true protocol h = absurd (cc)
  IsProtocol-validate_protocol true false protocol h = inl (cc)
  IsProtocol-validate_protocol false true protocol h = inr (inl (cc))
  IsProtocol-validate_protocol false false protocol h = inr (inr (cc))

  module _ (w : World) (t : Tester) (svn : String) (plain : IsPlain t)
      (found : which check_name w.path w.files "svn" ≡ returned svn) (svn_word : IsWord svn) where
    abbrev uri_of : String → Option ℕ → String
    uri_of protocol port = generate_uri protocol (server_of t.base) port t.directory

    abbrev command : String → Option ℕ → String
    command protocol port = command_of svn (uri_of protocol port) t.username t.password

    -- svn was run with the arguments, returned `code`, and `output` is the text of what it printed.
    abbrev Ran : (protocol : String) → Option ℕ → (code : ℤ) → (output : String) → Type 0
    Ran protocol port code output =
        (stdout : String) × (printed w.is_python_3 stdout ≡ some output)
        × (w.popen (arguments svn (uri_of protocol port) t.username t.password)
            ≡ inr (record { returncode = code; stdout = stdout }))

    split-command :
        (protocol : String) (port : Option ℕ)
        → IsProtocol protocol
        → split (command protocol port) ≡ arguments svn (uri_of protocol port) t.username t.password
    split-command protocol port h =
        split-command_of svn (uri_of protocol port) t.username t.password svn_word
          (generate_uri-IsWord protocol (server_of t.base) port t.directory h plain.0 plain.1)
          plain.2 plain.3

    run-Ran :
        (protocol : String) (port : Option ℕ) (code : ℤ) (output : String)
        → IsProtocol protocol
        → (Nagios.run check_name w.is_python_3 w.popen (command protocol port)
            ≡ returned (code, output))
          ↔ Ran protocol port code output
    run-Ran protocol port code output h =
        let ran = run_iff check_name w.popen (command protocol port) w.is_python_3 code output in
        let same = ap w.popen (split-command protocol port h) in
        (
          λ e.
              let (written, stdout, there, spawned) = ran.0 e in
              (stdout, there, sym same ∙ spawned),
          λ (stdout, there, spawned). ran.1 (
            command_of-there svn (uri_of protocol port) t.username t.password svn_word,
            stdout,
            there,
            same ∙ spawned,
          ),
        )

    Ran-there :
        (protocol : String) (port : Option ℕ) (code : ℤ) (output : String)
        → Ran protocol port code output
        → is_empty output ≡ false
    Ran-there protocol port code output (stdout, there, spawned) =
        printed-there w.is_python_3 stdout output there

    server_of-validate_timeout :
        (valid : Nagios.Tester)
        → validate_timeout check_name t.base ≡ returned valid
        → server_of valid ≡ server_of t.base
    server_of-validate_timeout valid h =
        let (n, read, low, high, same) = (validate_timeout_iff check_name t.base valid).0 h in
        ap server_of same

    -- Where the address, the names and the path of svn have no white space, the test returns a
    -- result exactly when the host, the protocol, the port and the timeout are accepted, svn
    -- could be run with the address, its two flags and the given username and password as one
    -- argument each, and in Python 2 it printed something: the result is OK if it returned 0 and
    -- CRITICAL otherwise, and never a WARNING.
    pub test_svn_iff :
        (result : ℕ × String)
        → (test_svn check_name w t ≡ returned result) ↔ (
            (validate_host check_name t.base ≡ returned tt)
            × (protocol : String) × (validate_protocol check_name t.http t.https
                ≡ returned protocol)
            × (port : Option ℕ) × (validate_port check_name t.port ≡ returned port)
            × (valid : Nagios.Tester) × (validate_timeout check_name t.base ≡ returned valid)
            × (code : ℤ) × (output stdout : String) × (printed w.is_python_3 stdout ≡ some output)
            × (w.popen (arguments svn (uri_of protocol port) t.username t.password)
                ≡ inr (record { returncode = code; stdout = stdout }))
            × (result ≡ verdict (or_zero valid.verbosity) code output))
    unfolding test_svn
    test_svn_iff result = (
      λ h.
          let (u, host, h1) = >>=-eq-returned (validate_host check_name t.base) _ h in
          let (protocol, chosen, h2) =
            >>=-eq-returned (validate_protocol check_name t.http t.https) _ h1 in
          let (port, port_ok, h3) = >>=-eq-returned (validate_port check_name t.port) _ h2 in
          let (valid, time_ok, h4) = >>=-eq-returned (validate_timeout check_name t.base) _ h3 in
          let (svn', found', h5) = >>=-eq-returned (which check_name w.path w.files "svn") _ h4 in
          let ((code, output), ran, h6) =
            >>=-eq-returned (Nagios.run check_name w.is_python_3 w.popen _) _ h5 in
          let here = returned-injective (sym found' ∙ found) in
          let named =
            ap
              (λ s.
                command_of s (generate_uri protocol (server_of valid) port t.directory) t.username
                  t.password)
              here
            ∙ ap
                (λ s.
                  command_of svn (generate_uri protocol s port t.directory) t.username t.password)
                (server_of-validate_timeout valid time_ok) in
          let spawned =
            (run-Ran protocol port code output
                (IsProtocol-validate_protocol t.http t.https protocol chosen)).0
              (ap (Nagios.run check_name w.is_python_3 w.popen) (sym named) ∙ ran) in
          (
            host,
            protocol,
            chosen,
            port,
            port_ok,
            valid,
            time_ok,
            code,
            output,
            spawned.0,
            spawned.1,
            spawned.2,
            sym (returned-injective h6)
                ∙ conclusion-there (or_zero valid.verbosity) code output
                    (Ran-there protocol port code output spawned),
          ),
      λ (
        host, protocol, chosen, port, port_ok, valid, time_ok, code, output, stdout, there, ran,
        told,
      ).
          let ended =
            (run-Ran protocol port code output
                (IsProtocol-validate_protocol t.http t.https protocol chosen)).1
              (stdout, there, ran) in
          let seen = Ran-there protocol port code output (stdout, there, ran) in
          rw
            (
              host,
              chosen,
              port_ok,
              time_ok,
              found,
              server_of-validate_timeout valid time_ok,
              ended,
              conclusion-there (or_zero valid.verbosity) code output seen,
              told,
            )
            refl,
    )
