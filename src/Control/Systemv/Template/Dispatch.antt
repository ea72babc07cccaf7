-- ===== src/Control/Systemv/Template/Dispatch.antt =====
-- The actions of the init.d script (control/controller_systemv_linux.go).
use cyberdaemon.Prelude.{List, [], ◌∷◌, codes}
use cyberdaemon.Control.Systemv.Template.Pieces.{Piece, text, chunk}

-- The `case` on the action.
unfoldable pub dispatch : List Piece
unfolding chunk codes
dispatch =
    text (
      chunk (
        "case \"$1\" in" ∷ "    start)" ∷ "        if [ -n \"${IS_REDHAT}\" ]" ∷ "        then"
        ∷ "            rh_status_q && exit 0" ∷ "        else"
        ∷ "            start-stop-daemon --status --pidfile ${PID_FILE_PATH} && exit 0"
        ∷ "        fi" ∷ "        start" ∷ "        ;;" ∷ "    stop)"
        ∷ "        if [ -n \"${IS_REDHAT}\" ]" ∷ "        then"
        ∷ "            if ! rh_status_q; then" ∷ "                exit 0" ∷ "            fi"
        ∷ "        else"
        ∷ "            start-stop-daemon --status --pidfile ${PID_FILE_PATH} || exit 0"
        ∷ "        fi" ∷ "        stop" ∷ "        ;;" ∷ "    restart)" ∷ "        stop"
        ∷ "        start" ∷ "        exit $?" ∷ "        ;;" ∷ "    reload|force-reload)"
        ∷ "        if [ -n \"${IS_REDHAT}\" ]" ∷ "        then"
        ∷ "            echo -n $\"Reloading $PROGRAM_NAME: \""
        ∷ "            killproc -p $PID_FILE_PATH $PROGRAM_PATH -HUP" ∷ "            r=$?"
        ∷ "            echo" ∷ "            exit $r" ∷ "        else"
        ∷ "            log_daemon_msg \"Reloading ${SHORT_DESCRIPTION}\" \"${PROGRAM_NAME}\" || true"
        ∷ "            if start-stop-daemon --signal HUP --pidfile ${PID_FILE_PATH} --stop; then"
        ∷ "                log_end_msg 0 || true" ∷ "            else"
        ∷ "                log_end_msg 1 || true" ∷ "            fi" ∷ "        fi" ∷ "        ;;"
        ∷ "    condrestart|try-restart)" ∷ "        if [ -n \"${IS_REDHAT}\" ]" ∷ "        then"
        ∷ "            rh_status_q || exit 0" ∷ "            stop" ∷ "            start"
        ∷ "            exit $?" ∷ "        else"
        ∷ "            start-stop-daemon --status --pidfile ${PID_FILE_PATH} && exit 0"
        ∷ "            log_daemon_msg \"Restarting ${SHORT_DESCRIPTION}\" \"${PROGRAM_NAME}\" || true"
        ∷ "            r=0"
        ∷ "            start-stop-daemon --stop --quiet --retry 30 --pidfile ${PID_FILE_PATH} || r=\"$?\""
        ∷ "            case $r in" ∷ "                0)" ∷ "                # old daemon stopped"
        ∷ "                check_dev_null log_end_msg" ∷ "                if start"
        ∷ "                then" ∷ "                    log_end_msg 0 || true"
        ∷ "                else" ∷ "                    log_end_msg 1 || true"
        ∷ "                fi" ∷ "                ;;" ∷ "                1)"
        ∷ "                # daemon not running"
        ∷ "                log_progress_msg \"(not running)\" || true"
        ∷ "                log_end_msg 0 || true" ∷ "                ;;" ∷ "                *)"
        ∷ "                # failed to stop"
        ∷ "                log_progress_msg \"(failed to stop)\" || true"
        ∷ "                log_end_msg 1 || true" ∷ "                ;;" ∷ "            esac"
        ∷ "        fi" ∷ "        ;;" ∷ "    status)" ∷ "        if [ -n \"${IS_REDHAT}\" ]"
        ∷ "        then" ∷ "            rh_status" ∷ "            exit $?" ∷ "        else"
        ∷ "            status_of_proc -p ${PID_FILE_PATH} \"${PROGRAM_PATH}\" \"${PROGRAM_NAME}\" && exit 0 || exit $?"
        ∷ "        fi" ∷ "        ;;" ∷ "    *)" ∷ "        if [ -n \"${IS_REDHAT}\" ]"
        ∷ "        then"
        ∷ "            echo $\"Usage: $0 {start|stop|restart|reload|force-reload|condrestart|try-restart|status}\""
        ∷ "        else"
        ∷ "            log_action_msg \"Usage: $0 {start|stop|reload|force-reload|restart|try-restart|status}\""
        ∷ "        fi" ∷ "        exit 2" ∷ "esac" ∷ "exit $?" ∷ "" ∷ []))
    ∷ []
