-- ===== src/Control/Systemv/Template/Header.antt =====
-- The head of the init.d script (control/controller_systemv_linux.go).
use cyberdaemon.Prelude.{List, [], ◌∷◌, codes}
use cyberdaemon.Control.Systemv.Template.Pieces.{
  Piece, text, hole, chunk, service_name, short_description, description, exe_path, arguments,
  pid_file_path, run_as,
}

-- The description for init.
unfoldable pub header : List Piece
unfolding chunk codes
header =
    text (
      chunk (
        "#!/bin/bash" ∷ "#" ∷ "# This file is based on '/etc/init.d/sshd' from the OpenSSH project."
        ∷ "# See https://github.com/openssh/openssh-portable/blob/master/LICENCE" ∷ "# for details."
        ∷ "" ∷ "### BEGIN INIT INFO" ∷ "# Provides: " ∷ []))
    ∷ hole service_name
    ∷ text (
        chunk (
          "" ∷ "# Required-Start: $local_fs $syslog" ∷ "# Required-Stop: $local_fs $syslog"
          ∷ "# Should-Start: $syslog" ∷ "# Should-Stop: $syslog" ∷ "# Default-Start: 2 3 4 5"
          ∷ "# Default-Stop: 0 1 6" ∷ "# Short-Description: " ∷ []))
    ∷ hole short_description
    ∷ text (chunk ("" ∷ "# Description:       " ∷ []))
    ∷ hole description
    ∷ text (chunk ("" ∷ "### END INIT INFO" ∷ "" ∷ "" ∷ []))
    ∷ []

-- The settings of the script, up to its functions.
unfoldable pub variables : List Piece
unfolding chunk codes
variables =
    text (
      chunk (
        "IS_REDHAT=\"\"" ∷ "if [ -f \"/etc/redhat-release\" ]" ∷ "then" ∷ "    IS_REDHAT=true"
        ∷ "    . /etc/rc.d/init.d/functions" ∷ "else" ∷ "    . /lib/lsb/init-functions"
        ∷ "    export PATH=\"${PATH:+$PATH:}/usr/sbin:/sbin\"" ∷ "    if init_is_upstart"
        ∷ "    then" ∷ "        exit 1" ∷ "    fi" ∷ "fi" ∷ "" ∷ "PROGRAM_NAME='" ∷ []))
    ∷ hole service_name
    ∷ text (chunk ("'" ∷ "PROGRAM_PATH='" ∷ []))
    ∷ hole exe_path
    ∷ text (chunk ("'" ∷ "ARGUMENTS='" ∷ []))
    ∷ hole arguments
    ∷ text (chunk ("'" ∷ "RUN_AS='" ∷ []))
    ∷ hole run_as
    ∷ text (chunk ("'" ∷ "if [ -z \"${RUN_AS}\" ]" ∷ "then" ∷ "\tRUN_AS='root'" ∷ "fi" ∷ "" ∷ []))
    ∷ text (codes "PID_FILE_PATH")
    ∷ text (chunk ("='" ∷ []))
    ∷ hole pid_file_path
    ∷ text
        (chunk ("'" ∷ "" ∷ "runlevel=$(set -- $(runlevel); eval \"echo \\$$#\" )" ∷ "" ∷ "" ∷ []))
    ∷ []
