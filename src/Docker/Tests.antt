-- ===== src/Docker/Tests.antt =====
-- Runs of older/check_docker_image.py.
use nagios_plugins.Base.{String, Bool, true, false, Option, none, some, ◌≡◌, refl}
use nagios_plugins.Base.Float.{ratio}
use nagios_plugins.Base.Int.{pos}
use nagios_plugins.Nagios.{returned, exited, raised, index_error}
use nagios_plugins.Docker.{World, Options, run, script}
use nagios_plugins.Docker.Missing.{run-missing}
use nagios_plugins.Text.{split, is_space, join}

abbrev world : (is_python_3 : Bool) → (stdout : String) → World
world is_python_3 stdout = record {
  is_python_3 = is_python_3;
  has_docker = true;
  popen = λ words. record { exitcode = pos 0; stdout = stdout; stderr = "" };
  expand_units = λ size units. returned (ratio (pos 0) 0);
  check_thresholds = λ status bytes. (status, "");
  support_msg = "";
}

abbrev options : (expected_id : Option String) → Options
options expected_id = record { docker_image = "nagios"; expected_id = expected_id }

there :
    run
      (world true
        "REPOSITORY  TAG     IMAGE ID      CREATED     SIZE\nnagios      latest  ab12cd34ef56  2 days ago  1.5 GB\n")
      (options (some "ab12cd34ef56"))
    ≡ returned (0, "docker image 'nagios', id = 'ab12cd34ef56', size = 1.5 GB")
unfolding script
there = refl

other_id :
    run
      (world false
        "REPOSITORY  TAG     IMAGE ID      CREATED     SIZE\nnagios      latest  ab12cd34ef56  2 days ago  155MB\n")
      (options (some "ff"))
    ≡ returned (2, "docker image 'nagios', id = 'ab12cd34ef56' (expected id = 'ff'), size = 155 MB")
unfolding script
other_id = refl

missing_image :
    run (world false "REPOSITORY  TAG     IMAGE ID      CREATED     SIZE\n") (options none)
    ≡ exited 2 "docker image 'nagios' not found! Does not exist or has not been pulled yet?"
unfolding script
missing_image = refl

abbrev header : String
header = "REPOSITORY  TAG     IMAGE ID      CREATED     SIZE"

run-missing_example :
    run (world true "REPOSITORY  TAG     IMAGE ID      CREATED     SIZE\n") (options none)
    ≡ raised index_error
unfolding split is_space join
run-missing_example =
    run-missing (world true "REPOSITORY  TAG     IMAGE ID      CREATED     SIZE\n") (options none)
      header refl refl refl refl refl
