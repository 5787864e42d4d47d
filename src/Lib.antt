-- ===== src/Lib.antt =====
-- A model of the Nagios plugins in Python: the plugins that parse the output of another program, and
-- the adapters that print a plugin's result in another format.
--
-- A plugin runs a utility, reads its lines, and exits with a status (0 OK, 1 WARNING, 2 CRITICAL,
-- 3 UNKNOWN) behind one printed line. A script's code is a function into `Nagios.Outcome`: it
-- returns, exits with a status and a line, or raises an exception. What the code reads from outside,
-- the utility's output, the files of the machine, the user's identity, is an argument of the
-- functions that read it, so that a theorem speaks of every such output. Debug prints and logging
-- have no effect on a result and are left out, and so is the alarm that limits the running time.
--
-- Base, Text, Regex, Nagios: what the plugins share.
--   Base holds lists, tests and Python's dicts (Base/Dict) and ints (Base/Int). Text holds the
--   methods of `str`, and `str` of bytes (Text/Bytes); characters are classified as in ASCII.
--   Regex is a backtracking matcher in Python's order of alternatives; its functions recur on the
--   pattern and on the subject, so they need no fuel. Nagios holds the statuses, the outcomes, and
--   the child process.
--
-- LibNagios: older/lib_nagios.py. `which`, `end`, `NagiosTester` with validate_host,
--   validate_timeout, validate_variables, run and sighandler, and vprint. `check_name` is the global
--   CHECK_NAME, and `is_python_3` says whether the output of a command is bytes (Text/Bytes).
--   set_timeout is left out: it only registers the handler.
--
-- MdRaid: older/check_md_raid.py. find_arrays, the loop of test_raid as `test_each` and
--   `test_array`, and main. `popen` gives the lines that mdadm prints for a command line.
--
-- ThreeWare: older/check_3ware_raid.py. Utility has end, _set_twcli_binary and run; Arrays and
--   Drives the loops of test_arrays and test_drives; Report the two summaries; Command has test_all
--   and main, with the parsed options as a record. `tw_cli` gives what the utility answers.
--
-- MegaRaid: older/check_lsi_megaraid.py. Utility has end, run and get_controllers; Arrays test_raid
--   and the summaries; Command the start of the script, make_megadev and main. `Host` is what the
--   script meets, and whether the interpreter orders `None`, the verbosity without -v.
--
-- Yum: check_yum.py. Returncode has end and check_returncode; Command validate_all_variables and
--   run; All get_all_updates; Security get_security_updates and yum_updateinfo; Updates the two
--   tests and main. `Host.popen` gives what yum prints for an argument list. get_updates is left
--   out: nothing calls it.
--
-- Adapter: adapter_csv.py, adapter_check_mk.py and adapter_geneos.py. Result has the setter of
--   `status`, cmd and process_message; Csv process_perfdata, output and run; CheckMk the name and
--   the line of the first subclass, Geneos the rows of the second. pylib, a submodule, gives the
--   table ERRORS, `usage` and isFloat: they are arguments.
--
-- Yarn: check_hadoop_yarn_queue_apps.py. The loop of check_queue_apps with app_selector as
--   `check_app`, the counters, and msg_queue_stats. The user's three regular expressions are tests
--   on texts, an application is the two fields of the JSON that are read, and pylib's `plural` is a
--   parameter.
--
-- Dhcpd: check_dhcpd_leases.py. Leases has open_lease_file and the functions that read a block of
--   the file; Lists the white- and blacklists; Sorting sort_keys_by_host; Format the two texts;
--   Command validate_variables, test_leases and main. The file's text is an argument. The handler
--   of the alarm is left out.
--
-- Portage: older/check_gentoo_portage.py. Exclusions has end and validate_exclusions; Timestamp
--   the age of the tree, with validate_portage_tree_age; Updates the check for the two utilities,
--   run and get_all_updates; Security what is counted of the output of glsa-check; Command the
--   other validations, test_for_updates and main. `Clock` and `Files` are the functions of `time`
--   and `os` that the script calls. An age is kept in seconds, and floats stand for the quotients
--   that they are near to. The handler of the alarm is left out.
--
-- LogServer: check_logserver.py. Settings has end and validate_variables with the methods that it
--   calls; Log generate_log, send_log and the message that is taken out of the log; Mysql
--   test_mysql_server; Command test_logserver and main. `World` is what the script meets: the parts
--   of the log, how the socket and MySQLdb answer, and whether their errors have items. set_timeout,
--   its handler and the wait between the two parts are left out.
--
-- Sftp: older/check_sftp.py. Items has end and test_items; Command which, run, test_sftp and main.
--   Whether `None` has an order, and whether `communicate` takes a text, are parameters, since the
--   script is written for Python 2 and names Python 3. The handler of the alarm is left out, and so
--   is the line that the script prints for the option -s.
--
-- LinuxRam: check_linux_ram.py. Memory has check_ram, and Command main, with the parsing and the
--   checks of the thresholds; Percentage bounds the error of the percentage. `float`, "%.2f" and the
--   rounding of float arithmetic are parameters; a float is the quotient that it stands for
--   (Base/Float, and pairs n / (d + 1) in the computation of the percentage), or nan.
--
-- Svn: older/check_svn.py, `SvnTester` on top of the class of LibNagios: protocol, port, address,
--   the command, the verdict on its output, and main. The command's end is `popen`'s, a parameter.
--   set_timeout and the lines of vprint are left out.
--
-- Vnc: older/check_vnc.py, on top of the class of LibNagios like Svn: the password file, the
--   command, the result and main, with the same left out.
--
-- Hbase: check_hbase_table_region_balance.py. The choice of the tables, process_table and the count
--   of the regions of each server, calculate_imbalance and run. What happybase and pylib give is a
--   parameter. The imbalance is the quotient that its float is near to.
--
-- Docker: older/check_docker_image.py. run, the lines and tags of the table that docker prints,
--   and the tests of the ID and of the size. The options, units and thresholds are pylib's,
--   parameters. In Python 3 the outputs of docker are bytes (Text/Bytes). Missing is about an
--   image that is not there.
--
-- The one fuel is that of `Text.Decimal.show`, which prints a number: its fuel is the number plus
-- one, and a number has at most that many digits (Text/Decimal/Enough).
--
-- Not modelled: the other plugins that fetch JSON through the frameworks of pylib, those in Perl,
--   and the scripts of the build and of the tests.
pub mod Base
pub mod Text
pub mod Portage
pub mod Regex
pub mod Nagios
pub mod Docker
pub mod Hbase
pub mod LibNagios
pub mod MdRaid
pub mod ThreeWare
pub mod MegaRaid
pub mod Yum
pub mod Adapter
pub mod Vnc
pub mod Yarn
pub mod Dhcpd
pub mod LogServer
pub mod Sftp
pub mod LinuxRam
pub mod Svn
