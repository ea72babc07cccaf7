-- ===== src/Control/Systemv/Template/Functions.antt =====
-- The functions of the init.d script (control/controller_systemv_linux.go).
use cyberdaemon.Prelude.{List, [], ◌∷◌, codes}
use cyberdaemon.Control.Systemv.Template.Pieces.{Piece, text, hole, chunk, log_file_path}

-- `start`, which runs the daemon.
unfoldable pub start_function : List Piece
unfolding chunk codes
start_function =
    text (
      chunk (
        "start() {" ∷ "    [ -x \"${PROGRAM_PATH}\" ] || exit 5" ∷ "    if [ -n \"${IS_REDHAT}\" ]"
        ∷ "    then" ∷ "        echo -n $\"Starting $PROGRAM_NAME: \"" ∷ "    else"
        ∷ "        check_dev_null"
        ∷ "        log_daemon_msg \"Starting ${SHORT_DESCRIPTION}\" \"${PROGRAM_NAME}\" || true"
        ∷ "    fi" ∷ "    local logFilePath=\"" ∷ []))
    ∷ hole log_file_path
    ∷ text (
        chunk (
          "\"" ∷ "    if [ -z \"${logFilePath}\" ]" ∷ "    then" ∷ "        logFilePath=/dev/null"
          ∷ "    else" ∷ "        mkdir -p -m 0700 \"${logFilePath%/*}\""
          ∷ "        chown -R \"${RUN_AS}:${RUN_AS}\" \"${logFilePath%/*}\"" ∷ "    fi"
          ∷ "    local r=0" ∷ "    if [ \"${RUN_AS}\" == \"root\" ]" ∷ "    then"
          ∷ "        $PROGRAM_PATH $ARGUMENTS 2> \"$logFilePath\"" ∷ "    else"
          ∷ "        touch $PID_FILE_PATH" ∷ "        chown ${RUN_AS}:${RUN_AS} $PID_FILE_PATH"
          ∷ "        su $RUN_AS -c \"$PROGRAM_PATH $ARGUMENTS 2> '$logFilePath'\"" ∷ "    fi"
          ∷ "    r=$?" ∷ "    if [ -n \"${IS_REDHAT}\" ]" ∷ "    then" ∷ "        if [ $r -eq 0 ]"
          ∷ "        then" ∷ "            success" ∷ "        else" ∷ "            failure"
          ∷ "        fi" ∷ "        echo" ∷ "    else" ∷ "        if [ $r -eq 0 ]" ∷ "        then"
          ∷ "            log_end_msg 0 || true" ∷ "        else"
          ∷ "            log_end_msg 1 || true" ∷ "        fi" ∷ "    fi" ∷ "    return $r" ∷ "}"
          ∷ "" ∷ "" ∷ []))
    ∷ []

-- `stop`, and the helpers.
unfoldable pub other_functions : List Piece
unfolding chunk codes
other_functions =
    text (
      chunk (
        "stop() {" ∷ "    if [ -n \"${IS_REDHAT}\" ]" ∷ "    then"
        ∷ "        echo -n $\"Stopping $PROGRAM_NAME: \""
        ∷ "        killproc -p $PID_FILE_PATH $PROGRAM_PATH" ∷ "        echo" ∷ "    else"
        ∷ "        log_daemon_msg \"Stopping ${SHORT_DESCRIPTION}\" \"${PROGRAM_NAME}\" || true"
        ∷ "        if start-stop-daemon --stop --pidfile ${PID_FILE_PATH}" ∷ "        then"
        ∷ "            log_end_msg 0 || true" ∷ "        else" ∷ "            log_end_msg 1 || true"
        ∷ "        fi" ∷ "    fi"
        ∷ "    # if we are in halt or reboot runlevel kill all running sessions"
        ∷ "    # so the TCP connections are closed cleanly"
        ∷ "    if [ \"x$runlevel\" = x0 -o \"x$runlevel\" = x6 ]; then" ∷ "        trap '' TERM"
        ∷ "        pkill $PROGRAM_NAME 2>/dev/null" ∷ "        trap TERM" ∷ "    fi"
        ∷ "    return $?" ∷ "}" ∷ "" ∷ "rh_status() {"
        ∷ "    status -p $PID_FILE_PATH $PROGRAM_NAME" ∷ "}" ∷ "" ∷ "rh_status_q() {"
        ∷ "    rh_status >/dev/null 2>&1" ∷ "}" ∷ "" ∷ "run_by_init() {"
        ∷ "    ([ \"$previous\" ] && [ \"$runlevel\" ]) || [ \"$runlevel\" = S ]" ∷ "}" ∷ ""
        ∷ "check_dev_null() {" ∷ "    if [ ! -c /dev/null ]" ∷ "    then"
        ∷ "        if [ \"$1\" = log_end_msg ]" ∷ "        then"
        ∷ "            log_end_msg 1 || true" ∷ "        fi" ∷ "        if ! run_by_init"
        ∷ "        then"
        ∷ "            log_action_msg \"/dev/null is not a character device!\" || true"
        ∷ "        fi" ∷ "        exit 1" ∷ "    fi" ∷ "}" ∷ "" ∷ "" ∷ []))
    ∷ []
