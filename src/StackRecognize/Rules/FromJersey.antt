-- ===== src/StackRecognize/Rules/FromJersey.antt =====
-- dongtai_common/utils/stack_recognize.py: the package prefixes of frameworks and libraries, from jersey on.
use dong_tai_server.Prelude.{List, [], ◌∷◌}
use dong_tai_server.Prelude.Text.{Text, codes}

unfoldable pub rules_from_jersey : List Text
rules_from_jersey =
    codes "jersey."
    ∷ codes "jline."
    ∷ codes "jnr."
    ∷ codes "jodd."
    ∷ codes "joptsimple."
    ∷ codes "jregex."
    ∷ codes "junit."
    ∷ codes "kodo."
    ∷ codes "lbmq."
    ∷ codes "mazz."
    ∷ codes "me.qmx."
    ∷ codes "microsoft."
    ∷ codes "mozilla."
    ∷ codes "mssql."
    ∷ codes "net.bytebuddy."
    ∷ codes "net.iharder."
    ∷ codes "net.jcip."
    ∷ codes "net.jpountz."
    ∷ codes "net.logstash."
    ∷ codes "net.minidev."
    ∷ codes "net.n3."
    ∷ codes "net.rubyeye."
    ∷ codes "net.sf."
    ∷ codes "net.sourceforge."
    ∷ codes "net.spy."
    ∷ codes "netscape."
    ∷ codes "nu.xom."
    ∷ codes "ognl."
    ∷ codes "okhttp3."
    ∷ codes "okio."
    ∷ codes "oracle."
    ∷ codes "org.abego."
    ∷ codes "org.ajax4jsf."
    ∷ codes "org.antlr."
    ∷ codes "org.aopalliance."
    ∷ codes "org.apache."
    ∷ codes "org.apiguardian."
    ∷ codes "org.asciidoctor."
    ∷ codes "org.aspectj."
    ∷ codes "org.assertj."
    ∷ codes "org.attoparser."
    ∷ codes "org.bouncycastle."
    ∷ codes "org.bson."
    ∷ codes "org.ccil."
    ∷ codes "org.checkerframework."
    ∷ codes "org.codehaus."
    ∷ codes "org.custommonkey."
    ∷ codes "org.dataloader."
    ∷ codes "org.dom4j."
    ∷ codes "org.eclipse."
    ∷ codes "org.elasticsearch."
    ∷ codes "org.flywaydb."
    ∷ codes "org.fusesource."
    ∷ codes "org.gjt."
    ∷ codes "org.glassfish."
    ∷ codes "org.h2."
    ∷ codes "org.hamcrest."
    ∷ codes "org.hdiv."
    ∷ codes "org.HdrHistogram."
    ∷ codes "org.hibernate."
    ∷ codes "org.hornetq."
    ∷ codes "org.hotswap."
    ∷ codes "org.hsqldb."
    ∷ codes "org.I0Itec."
    ∷ codes "org.ietf."
    ∷ codes "org.jacoco."
    ∷ codes "org.jaxen."
    ∷ codes "org.jboss."
    ∷ codes "org.jcodings."
    ∷ codes "org.jcp."
    ∷ codes "org.jctools."
    ∷ codes "org.jdom."
    ∷ codes "org.jetbrains."
    ∷ codes "org.jfree."
    ∷ codes "org.jledit."
    ∷ codes "org.jnp."
    ∷ codes "org.joda."
    ∷ codes "org.joni."
    ∷ codes "org.jose4j."
    ∷ codes "org.jruby."
    ∷ codes "org.json."
    ∷ codes "org.jsoup."
    ∷ codes "org.junit."
    ∷ codes "org.jvnet."
    ∷ codes "org.knopflerfish."
    ∷ codes "org.LatencyUtils."
    ∷ codes "org.locationtech."
    ∷ codes "org.mariadb."
    ∷ codes "org.mockito."
    ∷ codes "org.mortbay."
    ∷ codes "org.msgpack."
    ∷ codes "org.mybatis."
    ∷ codes "org.neo4j."
    ∷ codes "org.noggit."
    ∷ codes "org.nutz."
    ∷ codes "org.oasisopen."
    ∷ codes "org.objectweb."
    ∷ codes "org.objenesis."
    ∷ codes "org.omg."
    ∷ codes "org.openjdk."
    ∷ codes "org.opentest4j."
    ∷ codes "org.ops4j."
    ∷ codes "org.osgi."
    ∷ codes "org.osoa."
    ∷ codes "org.owasp."
    ∷ codes "org.pentaho."
    ∷ codes "org.picketbox."
    ∷ codes "org.postgresql."
    ∷ codes "org.powermock."
    ∷ codes "org.python."
    ∷ codes "org.quartz."
    ∷ codes "org.reactivestreams."
    ∷ codes "org.redisson."
    ∷ codes "org.relaxng."
    ∷ codes "org.rhq."
    ∷ codes "org.richfaces."
    ∷ codes "org.roaringbitmap."
    ∷ codes "org.skyscreamer."
    ∷ codes "org.slf4j."
    ∷ codes "org.sonatype."
    ∷ codes "org.springdoc."
    ∷ codes "org.springframework."
    ∷ codes "org.synchronoss."
    ∷ codes "org.terracotta."
    ∷ codes "org.thymeleaf."
    ∷ codes "org.tukaani."
    ∷ codes "org.unbescape."
    ∷ codes "org.w3c."
    ∷ codes "org.webjars."
    ∷ codes "org.wildfly."
    ∷ codes "org.xerial."
    ∷ codes "org.xml."
    ∷ codes "org.xmlpull."
    ∷ codes "org.xmlunit."
    ∷ codes "org.xnio."
    ∷ codes "org.yaml."
    ∷ codes "org.znerd."
    ∷ codes "oshi."
    ∷ codes "play."
    ∷ codes "reactor."
    ∷ codes "redis."
    ∷ codes "ru.yandex."
    ∷ codes "rx."
    ∷ codes "scala."
    ∷ codes "serp."
    ∷ codes "sun."
    ∷ codes "weblogic."
    ∷ codes "workshop."
    ∷ codes "zipkin2."
    ∷ []
